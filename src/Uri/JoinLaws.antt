-- ===== src/Uri/JoinLaws.antt =====
-- `hemp_uri_path_join`: it ends, and how much it writes.
use hemp.Base.{
  ℕ, zero, suc, ◌+◌, ◌<◌, ◌≤◌, ◌≡◌, refl, ap, ◌∙◌, Bool, true, false, not, none, some, List, [],
  ◌∷◌, ◌++◌, ◌==◌, if◌then◌else◌, length, take, get_or, ltb, min, arith, Option-cases, inl, inr,
  length-append, length-take, All, append_assoc, append-nil,
}
use hemp.Chars.{Str, span, span-All, length-span, after, after-cons, last_slash}
use hemp.Uri.Paths.{
  Cursor, needs_slash, base_length, adds_slash, base_part, rewind, go_up, copied_part, copy_part,
  part_end, dot_case, join_step, join_loop, path_join, join_room,
}

-- A step takes bytes from the source, and writes as many at most; only the last may write its NUL
-- besides.
abbrev Moves : Str → Str → Cursor → Type 0
Moves src out c =
    (length c.src < length src)
    × (length c.out + length c.src + min (length c.src) 1 ≤ length out + length src + 1)

length-after : (c : ℕ) (s : Str) {r : Str} → after c s ≡ some r → length s ≡ length r + 1
length-after c s e = omega (arith, ap length (after-cons c s e))

copy_part-Moves : (c : ℕ) (s out : Str) → Moves (c ∷ s) out (copy_part (c ∷ s) out)
unfolding copy_part copied_part
copy_part-Moves c s out =
    let (part, rest) = span (λ d. not (d == b'/')) (c ∷ s) in
    let sizes = length-span (λ d. not (d == b'/')) (c ∷ s) in
    elim (Option-cases (after b'/' rest)) [
      | inl e ↦
          rw (e, copied_part)
            (omega (arith, length-append out (part ++ 0 ∷ []), length-append part (0 ∷ [])))
      | inr (r, e) ↦
          rw (e, copied_part)
            (omega (
              arith,
              length-append out (part ++ b'/' ∷ []),
              length-append part (b'/' ∷ []),
              length-after b'/' rest e,
            ))
    ]

part_end-lt : (s : Str) {r : Str} → part_end s ≡ some r → length r ≤ length s
unfolding part_end
part_end-lt [] h = ground arith
part_end-lt (c ∷ s) h = omega (arith, length-after b'/' (c ∷ s) h)

length-go_up : (out : Str) → length (go_up out) ≤ length out + 1
unfolding go_up
length-go_up out = ground (
  arith,
  length-take (rewind (take (rewind out) out) + 1) out,
  length-take (rewind (take (rewind out) out)) out,
  length-take (rewind out + 1) (out ++ 0 ∷ []),
  length-append out (0 ∷ []),
)

dot_case-Moves : (s out : Str) → Moves (b'.' ∷ s) out (dot_case s out)
unfolding dot_case
dot_case-Moves s out = elim (Option-cases (part_end s)) [
  | inr (r, e) ↦ rw (e, dot_case) (omega (arith, part_end-lt s e))
  | inl e ↦ elim (Option-cases (after b'.' s)) [
    | inl d ↦ rw (e, d, dot_case) (copy_part-Moves b'.' s out)
    | inr (s', d) ↦ elim (Option-cases (part_end s')) [
      | inl e' ↦ rw (e, d, e', dot_case) (copy_part-Moves b'.' s out)
      | inr (r, e') ↦
          rw (e, d, e', dot_case)
            (omega (arith, part_end-lt s' e', length-after b'.' s d, length-go_up out))
    ]
  ]
]

join_step-Moves : (c : ℕ) (s out : Str) → Moves (c ∷ s) out (join_step c s out)
unfolding join_step
join_step-Moves c s out = ground (arith, dot_case-Moves s out, copy_part-Moves c s out)

join_loop-bound :
    (f : ℕ) (src out : Str)
    → length src < f
    → (end : Str) × (join_loop f src out ≡ some end)
      × (length end ≤ length out + length src + min (length src) 1)
unfolding join_loop
join_loop-bound zero src out h = elim h [ ]
join_loop-bound (suc f) [] out h = (out, refl, omega arith)
join_loop-bound (suc f) (c ∷ s) out h =
    let next = join_step c s out in
    let moves = join_step-Moves c s out in
    let (end, run, size) = join_loop-bound f next.src next.out (omega arith) in
    (end, run, omega arith)

length-base_part :
    (base rel : Str) (is_dir : Bool)
    → length (base_part base rel is_dir)
      ≤ base_length base rel is_dir + (if adds_slash base rel is_dir then 1 else 0)
unfolding base_part
length-base_part base rel is_dir = ground (
  arith,
  length-append (take (base_length base rel is_dir) base)
      (if adds_slash base rel is_dir then b'/' ∷ [] else []),
  length-take (base_length base rel is_dir) base,
)

-- The loop ends with a path, and with its final NUL the path takes no more than was allocated, or
-- one byte more if a slash is added to the base.
pub path_join-bound :
    (base rel : Str) (is_dir : Bool)
    → (end : Str) × (path_join base rel is_dir ≡ some end)
      × (length end + 1 ≤ join_room base rel is_dir + (if adds_slash base rel is_dir then 1 else 0))
unfolding path_join join_room
path_join-bound base rel is_dir =
    let (end, run, size) =
      join_loop-bound (suc (length rel)) rel (base_part base rel is_dir) (omega arith) in
    (end, run, omega (arith, length-base_part base rel is_dir))

-- A name: no slash in it, and no dot at its start.
pub record IsName (c : ℕ) (s : Str) : Type 0 where
  pub undotted : (c == b'.') ≡ false
  pub one_part : All (λ d. not (d == b'/') ≡ true) (c ∷ s)

copy_part-name :
    (c : ℕ) (s out : Str)
    → All (λ d. not (d == b'/') ≡ true) (c ∷ s)
    → copy_part (c ∷ s) out ≡ record { src = []; out = out ++ (c ∷ s ++ 0 ∷ []) }
unfolding copy_part
copy_part-name c s out h =
    ap (λ p. copied_part p out) (span-All _ (c ∷ s) h) ∙ (unfold copied_part after in refl)

join_step-name :
    (c : ℕ) (s out : Str)
    → IsName c s
    → join_step c s out ≡ record { src = []; out = out ++ (c ∷ s ++ 0 ∷ []) }
unfolding join_step
join_step-name c s out h =
    let p : (c == b'/') ≡ false = ground (arith, h.one_part.0) in
    rw (p, h.undotted) (copy_part-name c s out h.one_part)

join_loop-name :
    (f c : ℕ) (s out : Str)
    → IsName c s
    → join_loop (suc (suc f)) (c ∷ s) out ≡ some (out ++ (c ∷ s ++ 0 ∷ []))
unfolding join_loop
join_loop-name f c s out h =
    ap (λ (n : Cursor). join_loop (suc f) n.src n.out) (join_step-name c s out h)

-- A name is written behind the base, with its NUL.
pub path_join-name :
    (base : Str) (c : ℕ) (s : Str) (is_dir : Bool)
    → IsName c s
    → path_join base (c ∷ s) is_dir ≡ some (base_part base (c ∷ s) is_dir ++ (c ∷ s ++ 0 ∷ []))
unfolding path_join
path_join-name base c s is_dir h = join_loop-name (length s) c s _ h

-- The buffer is one byte short where a name is joined to a directory that lacks its slash.
pub path_join-overflows :
    (b : ℕ) (base : Str) (c : ℕ) (s : Str)
    → needs_slash (b ∷ base) ≡ true
    → IsName c s
    → (end : Str) × (path_join (b ∷ base) (c ∷ s) true ≡ some end)
      × (length end + 1 ≡ join_room (b ∷ base) (c ∷ s) true + 1)
unfolding join_room base_part base_length adds_slash
path_join-overflows b base c s slash h =
    let p : (c == b'/') ≡ false = ground (arith, h.one_part.0) in
    (
      _,
      path_join-name (b ∷ base) c s true h,
      rw (p, slash)
          (omega (
            arith,
            length-append (take (suc (length base)) (b ∷ base) ++ b'/' ∷ []) (c ∷ s ++ 0 ∷ []),
            length-append (take (suc (length base)) (b ∷ base)) (b'/' ∷ []),
            length-append (c ∷ s) (0 ∷ []),
            length-take (suc (length base)) (b ∷ base),
          )),
    )

module _ {ℓ} {A : Type ℓ} where
  get_or-append : (a b : List A) (i : ℕ) (d : A) → get_or (a ++ b) (length a + i) d ≡ get_or b i d
  get_or-append [] b i d = let e : 0 + i ≡ i = omega arith in rw e
  get_or-append (x ∷ a) b i d =
      let e : suc (length a) + i ≡ suc (length a + i) = omega arith in rw e (get_or-append a b i d)

  take-append : (a b : List A) (i : ℕ) → take (length a + i) (a ++ b) ≡ a ++ take i b
  take-append [] b i = let e : 0 + i ≡ i = omega arith in rw e
  take-append (x ∷ a) b i =
      let e : suc (length a) + i ≡ suc (length a + i) = omega arith in
      rw e (ap (λ w. x ∷ w) (take-append a b i))

last_slash-none : (x : Str) → All (λ d. not (d == b'/') ≡ true) x → last_slash x ≡ none
unfolding last_slash
last_slash-none [] h = refl
last_slash-none (c ∷ x) h = rw (last_slash-none x h.1) (ground arith)

last_slash-append :
    (a x : Str) → All (λ d. not (d == b'/') ≡ true) x → last_slash (a ++ b'/' ∷ x) ≡ some (length a)
unfolding last_slash
last_slash-append [] x h = rw (last_slash-none x h)
last_slash-append (c ∷ a) x h = rw (last_slash-append a x h) (ap some (omega arith))

rewind-append :
    (a x : Str) → All (λ d. not (d == b'/') ≡ true) x → rewind (a ++ b'/' ∷ x) ≡ length a + 0
unfolding rewind
rewind-append a x h = rw (last_slash-append a x h, rewind) (omega arith)

-- From inside a directory `..` leads to the directory that holds it.
pub go_up-parent :
    (a x : Str)
    → All (λ d. not (d == b'/') ≡ true) x
    → go_up ((a ++ b'/' ∷ x) ++ b'/' ∷ []) ≡ a ++ b'/' ∷ []
unfolding go_up
go_up-parent a x h =
    let inside : Str = a ++ b'/' ∷ x in
    let pos : ltb 0 (length inside + 0) ≡ true = ground (arith, length-append a (b'/' ∷ x)) in
    let one : length inside + 0 + 1 ≡ length inside + 1 = omega arith in
    let cut : take (length inside + 0) (inside ++ b'/' ∷ []) ≡ inside =
      take-append inside (b'/' ∷ []) 0 ∙ append-nil inside in
    let back : get_or (inside ++ b'/' ∷ []) (length a + 0) 0 ≡ b'/' =
      ap (λ w. get_or w (length a + 0) 0) (append_assoc a (b'/' ∷ x) (b'/' ∷ []))
      ∙ get_or-append a (b'/' ∷ (x ++ b'/' ∷ [])) 0 0 in
    let kept : take (length a + 0 + 1) (inside ++ b'/' ∷ []) ≡ a ++ b'/' ∷ [] =
      let two : length a + 0 + 1 ≡ length a + 1 = omega arith in
      rw two (
        ap (take (length a + 1)) (append_assoc a (b'/' ∷ x) (b'/' ∷ []))
        ∙ take-append a (b'/' ∷ (x ++ b'/' ∷ [])) 1) in
    rw (
      rewind-append inside [] tt,
      cut,
      rewind-append a x h,
      get_or-append inside (b'/' ∷ []) 0 0,
      one,
      get_or-append inside (b'/' ∷ []) 1 0,
      pos,
      back,
      kept,
    )

-- Where the base part ends in a segment x without slashes, `/x/`, a relative path `../name`
-- replaces the segment by the name.
pub path_join-parent :
    (base : Str) (is_dir : Bool) (a x : Str) (c : ℕ) (s : Str)
    → All (λ d. not (d == b'/') ≡ true) x
    → IsName c s
    → base_part base (b'.' ∷ b'.' ∷ b'/' ∷ c ∷ s) is_dir ≡ (a ++ b'/' ∷ x) ++ b'/' ∷ []
    → path_join base (b'.' ∷ b'.' ∷ b'/' ∷ c ∷ s) is_dir
      ≡ some ((a ++ b'/' ∷ []) ++ (c ∷ s ++ 0 ∷ []))
unfolding path_join join_loop join_step dot_case part_end after
path_join-parent base is_dir a x c s hx hn e =
    ap (λ out. join_loop (suc (suc (suc (suc (length s))))) (c ∷ s) (go_up out)) e
    ∙ ap (join_loop (suc (suc (suc (suc (length s))))) (c ∷ s)) (go_up-parent a x hx)
    ∙ join_loop-name (suc (suc (length s))) c s (a ++ b'/' ∷ []) hn
