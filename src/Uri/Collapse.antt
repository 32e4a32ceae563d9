-- ===== src/Uri/Collapse.antt =====
-- `hemp_uri_collapse_path`: it ends, stays within its buffer, and what it does to plain paths.
use hemp.Base.{
  ℕ, zero, suc, ◌+◌, ◌-◌, ◌<◌, ◌≤◌, ◌≡◌, refl, ap, sym, ◌∙◌, Bool, true, false, not, Option, none,
  some, [], ◌∷◌, ◌++◌, ◌==◌, length, take, arith, Bool-cases, Option-cases, inl, inr, length-append,
  length-take, length-drop, All, append_assoc, append-nil,
}
use hemp.Chars.{
  Str, span, span-stop, span-append, length-span, length-span_lt, after_all, str_eq, last_slash,
  last_slash-lt,
}
use hemp.Uri.Paths.{
  starts, Collapsing, or_start, up, copy_segment, collapse_step, collapse_loop, collapse,
}

-- The remembered slash lies before the position to write at.
abbrev Within : Option ℕ → Str → Type 0
Within none out = Unit
Within (some i) out = i < length out

-- A step takes a byte from the source at least, and writes no more than it takes.
record Steps (src out : Str) (c : Collapsing) : Type 0 where
  taken : length c.src < length src
  room : length c.out + length c.src ≤ length out + length src
  within : Within c.slash c.out

Within-append : (slash : Option ℕ) (out x : Str) → Within slash out → Within slash (out ++ x)
Within-append none out x h = tt
Within-append (some i) out x h = omega (arith, length-append out x)

Within-cut :
    (slash : Option ℕ) (out : Str)
    → Within slash out
    → Within slash (take (or_start slash) out ++ b'/' ∷ [])
Within-cut none out h = tt
Within-cut (some i) out h = omega (arith, length-append (take i out) (b'/' ∷ []), length-take i out)

last-Within : (s : Str) → Within (last_slash s) s
last-Within s = elim (Option-cases (last_slash s)) [
  | inl e ↦ rw e tt
  | inr (i, e) ↦ rw e (last_slash-lt s e)
]

copy_segment-Steps :
    (c : ℕ) (s out : Str) (slash : Option ℕ)
    → Within slash out
    → Steps (c ∷ s) out (copy_segment c s out slash)
unfolding copy_segment
copy_segment-Steps c s out slash h = elim (Bool-cases (c == b'/')) [
  | inl e ↦
      let sizes = length-span (λ d. not (d == b'/')) s in
      let grown = length-append out (b'/' ∷ (span (λ d. not (d == b'/')) s).0) in
      rw e (record { taken = omega arith; room = omega arith; within = omega arith })
  | inr e ↦
      let sizes = length-span (λ d. not (d == b'/')) (c ∷ s) in
      let less = length-span_lt (λ d. not (d == b'/')) c s (ground arith) in
      let part : Str = (span (λ d. not (d == b'/')) (c ∷ s)).0 in
      rw e (record {
        taken = omega arith;
        room = omega (arith, length-append out part);
        within = Within-append slash out part h;
      })
]

up-Within :
    (out : Str) (slash : Option ℕ)
    → Within slash out
    → (length (up out slash).0 ≤ length out) × Within (up out slash).1 (up out slash).0
unfolding up
up-Within out none h = (omega arith, tt)
up-Within out (some i) h = (omega (arith, length-take i out), last-Within (take i out))

collapse_step-Steps :
    (c : ℕ) (s out : Str) (slash : Option ℕ)
    → Within slash out
    → Steps (c ∷ s) out (collapse_step c s out slash)
unfolding collapse_step
collapse_step-Steps c s out slash h = ground (
  arith,
  copy_segment-Steps c s out slash h,
  up-Within out slash h,
  length-drop 1 s,
  length-drop 2 s,
  length-append out (b'/' ∷ []),
  length-append (take (or_start slash) out) (b'/' ∷ []),
  length-take (or_start slash) out,
  Within-append slash out (b'/' ∷ []) h,
  Within-cut slash out h,
)

collapse_loop-bound :
    (f : ℕ) (src out : Str) (slash : Option ℕ)
    → length src < f
    → Within slash out
    → (end : Str) × (collapse_loop f src out slash ≡ some end)
      × (length end ≤ length out + length src)
unfolding collapse_loop
collapse_loop-bound zero src out slash h k = elim h [ ]
collapse_loop-bound (suc f) [] out slash h k = (out, refl, omega arith)
collapse_loop-bound (suc f) (c ∷ s) out slash h k =
    let next = collapse_step c s out slash in
    let steps = collapse_step-Steps c s out slash k in
    let (end, run, size) =
      collapse_loop-bound f next.src next.out next.slash (omega (arith, steps.taken))
        steps.within in
    (end, run, omega (arith, steps.room))

-- The loop that collapses a path ends, and the result fits in a buffer as long as the path:
-- `strlen (path) + 1` bytes.
pub collapse-bound :
    (path : Str) → (end : Str) × (collapse path ≡ some end) × (length end ≤ length path)
unfolding collapse
collapse-bound path =
    let (end, run, size) = collapse_loop-bound (suc (length path)) path [] none (omega arith) tt in
    (end, run, omega arith)

abbrev pub IsPlain : Str → Type 0
IsPlain = All (λ c. (c == b'.') ≡ false)

-- Without a dot no test succeeds.
step-plain :
    (c : ℕ) (s out : Str) (slash : Option ℕ)
    → IsPlain (c ∷ s)
    → collapse_step c s out slash ≡ copy_segment c s out slash
unfolding collapse_step starts after_all str_eq
step-plain c [] out slash h = ground arith
step-plain c (d ∷ s) out slash h = ground arith

span-IsPlain : (p : ℕ → Bool) (s : Str) → IsPlain s → IsPlain (span p s).1
unfolding span
span-IsPlain p [] h = h
span-IsPlain p (c ∷ s) h = elim (Bool-cases (p c)) [
  | inl e ↦ rw e (span-IsPlain p s h.1)
  | inr e ↦ rw e h
]

-- What is copied and what is left are the source.
copy_segment-append :
    (c : ℕ) (s out : Str) (slash : Option ℕ)
    → IsPlain (c ∷ s)
    → ((copy_segment c s out slash).out ++ (copy_segment c s out slash).src ≡ out ++ (c ∷ s))
      × IsPlain (copy_segment c s out slash).src
unfolding copy_segment
copy_segment-append c s out slash h = elim (Bool-cases (c == b'/')) [
  | inl e ↦
      let slashed : b'/' ≡ c = ground arith in
      rw e (
        append_assoc out _ _
            ∙ ap (λ w. out ++ (b'/' ∷ w)) (span-append _ s)
            ∙ ap (λ d. out ++ (d ∷ s)) slashed,
        span-IsPlain _ s h.1,
      )
  | inr e ↦
      rw e (
        append_assoc out _ _ ∙ ap (λ w. out ++ w) (span-append _ (c ∷ s)),
        span-IsPlain _ (c ∷ s) h,
      )
]

collapse_loop-plain :
    (f : ℕ) (src out : Str) (slash : Option ℕ)
    → length src < f
    → Within slash out
    → IsPlain src
    → collapse_loop f src out slash ≡ some (out ++ src)
unfolding collapse_loop
collapse_loop-plain zero src out slash h w k = elim h [ ]
collapse_loop-plain (suc f) [] out slash h w k = ap some (sym (append-nil out))
collapse_loop-plain (suc f) (c ∷ s) out slash h w k =
    let next = copy_segment c s out slash in
    let steps = copy_segment-Steps c s out slash w in
    let (joined, plain) = copy_segment-append c s out slash k in
    rw (step-plain c s out slash k) (
      collapse_loop-plain f next.src next.out next.slash (omega (arith, steps.taken)) steps.within
        plain
      ∙ ap some joined)

-- A path without a dot is left as it is by the collapse.
pub collapse-plain : (path : Str) → IsPlain path → collapse path ≡ some path
unfolding collapse
collapse-plain path h = collapse_loop-plain (suc (length path)) path [] none (omega arith) tt h

step-slash :
    (d : ℕ) (s out : Str) (slash : Option ℕ)
    → (d == b'.') ≡ false
    → collapse_step b'/' (d ∷ s) out slash ≡ copy_segment b'/' (d ∷ s) out slash
unfolding collapse_step starts after_all str_eq
step-slash d s out slash h = ground arith

-- The rest behind a first segment.
abbrev up_rest : Str → Str
up_rest r = b'/' ∷ b'.' ∷ b'.' ∷ b'/' ∷ r

first_segment :
    (x r : Str)
    → IsPlain x
    → collapse_step b'/' (x ++ up_rest r) [] none ≡ copy_segment b'/' (x ++ up_rest r) [] none
first_segment [] r h = step-slash b'/' _ [] none refl
first_segment (d ∷ x) r h = step-slash d _ [] none h.0

copied_segment :
    (x r : Str)
    → All (λ c. not (c == b'/') ≡ true) x
    → copy_segment b'/' (x ++ up_rest r) [] none
      ≡ record { src = up_rest r; out = b'/' ∷ x; slash = some 0 }
unfolding copy_segment
copied_segment x r h =
    ap (λ (p : Str × Str). record { src = p.1; out = b'/' ∷ p.0; slash = some 0 })
      (span-stop _ x b'/' (b'.' ∷ b'.' ∷ b'/' ∷ r) h refl)

-- Two rounds: one takes the segment, the next drops it.
two_rounds :
    (f : ℕ) (x r : Str)
    → All (λ c. not (c == b'/') ≡ true) x
    → IsPlain x
    → collapse_loop (suc (suc f)) (b'/' ∷ (x ++ up_rest r)) [] none
      ≡ collapse_loop f (b'/' ∷ r) [] none
unfolding collapse_loop
two_rounds f x r hx px =
    ap (λ (c : Collapsing). collapse_loop (suc f) c.src c.out c.slash)
      (first_segment x r px ∙ copied_segment x r hx)
    ∙ (unfold collapse_step starts after_all str_eq up last_slash in refl)

-- In a path `/x/../r`, where x has no slash and x and r have no dot, the collapse drops x with
-- its slash: `/r` is left.
pub collapse-parent :
    (x r : Str)
    → All (λ c. not (c == b'/') ≡ true) x
    → IsPlain x
    → IsPlain r
    → collapse (b'/' ∷ (x ++ (b'/' ∷ b'.' ∷ b'.' ∷ b'/' ∷ r))) ≡ some (b'/' ∷ r)
unfolding collapse
collapse-parent x r hx px pr =
    let size = length-append x (up_rest r) in
    let e : length (x ++ up_rest r) ≡ suc (length (x ++ up_rest r) - 1) = omega arith in
    ap (λ n. collapse_loop (suc (suc n)) (b'/' ∷ (x ++ up_rest r)) [] none) e
    ∙ two_rounds (suc (length (x ++ up_rest r) - 1)) x r hx px
    ∙ collapse_loop-plain (suc (length (x ++ up_rest r) - 1)) (b'/' ∷ r) [] none (omega arith) tt
        (refl, pr)
