-- ===== src/Uri/PartLaws.antt =====
-- The list of path elements and the parameters that the splits produce.
use hemp.Base.{
  ℕ, zero, suc, ◌+◌, ◌-◌, ◌≤◌, ◌<◌, ◌≡◌, ◌≢◌, refl, ap, sym, ◌∙◌, ◌⊎◌, inl, inr, true, ◌&&◌, not,
  Option, none, some, List, [], ◌∷◌, ◌++◌, ◌==◌, length, drop, All, arith, length-append,
  append_assoc, append-nil, Bool-cases, Option-cases, All-append, min,
}
use hemp.Chars.{Str, span, span-append, span-stop, span-All, length-span, after, after-cons}
use hemp.ListType.Pushes.{pushed-cases}
use hemp.Uri.Parts.{
  skip_one, entry, copied, split_path, names_loop, string_at, Parsed, missing_key, missing_equals,
  params, missing_key, missing_equals, no_fuel, key_round, value_round, add_param, split_query,
}

-- The elements with a slash behind each.
unfoldable pub glue : List (Option Str) → Str
glue [] = []
glue (none ∷ ss) = b'/' ∷ glue ss
glue (some s ∷ ss) = s ++ (b'/' ∷ glue ss)

glue-entry : (s : Str) (ss : List (Option Str)) → glue (entry s ∷ ss) ≡ s ++ (b'/' ∷ glue ss)
unfolding glue
glue-entry [] ss = refl
glue-entry (c ∷ s) ss = refl

length-copied : (s : Str) → length (copied s) ≤ length s + 1
length-copied [] = omega arith
length-copied (c ∷ s) = omega (arith, length-append (c ∷ s) (0 ∷ []))

-- The walk over one name leaves nothing, or a slash and the rest.
name_rest :
    (s : Str)
    → ((span (λ d. not (d == b'/')) s).1 ≡ [])
      ⊎ ((r : Str) × ((span (λ d. not (d == b'/')) s).1 ≡ b'/' ∷ r))
unfolding span
name_rest [] = inl refl
name_rest (c ∷ s) = elim (Bool-cases (c == b'/')) [
  | inl e ↦ let p : c ≡ b'/' = ground arith in rw e (inr (s, ap (λ d. d ∷ s) p))
  | inr e ↦ rw e (name_rest s)
]

length-skip_one : (s : Str) → length (skip_one s) ≡ length s - 1
length-skip_one [] = omega arith
length-skip_one (c ∷ s) = omega arith

abbrev pub Glued : List (Option Str) → Str → Type 0
Glued names path = (glue names ≡ path) ⊎ ((0 < length path) × (glue names ≡ path ++ b'/' ∷ []))

Glued-name :
    (name rest : Str) (names : List (Option Str)) (path : Str)
    → name ++ rest ≡ path
    → (rest ≡ []) ⊎ ((r : Str) × (rest ≡ b'/' ∷ r))
    → Glued names (skip_one rest)
    → 0 < length path
    → Glued (entry name ∷ names) path
Glued-name name [] names path whole cut (inl h) pos = inr (
  pos,
  glue-entry name names
      ∙ ap (λ w. name ++ (b'/' ∷ w)) h
      ∙ ap (λ w. w ++ b'/' ∷ []) (sym (append-nil name) ∙ whole),
)
Glued-name name [] names path whole cut (inr (lt, h)) pos = absurd (omega arith)
Glued-name name (c ∷ r) names path whole (inl e) h pos = ground arith
Glued-name name (c ∷ r) names path whole (inr (q, e)) (inl h) pos =
    let slash : b'/' ≡ c = ground arith in
    inl (
      glue-entry name names
      ∙ ap (λ w. name ++ (b'/' ∷ w)) h
      ∙ ap (λ d. name ++ (d ∷ r)) slash
      ∙ whole)
Glued-name name (c ∷ r) names path whole (inr (q, e)) (inr (lt, h)) pos =
    let slash : b'/' ≡ c = ground arith in
    inr (
      pos,
      glue-entry name names
          ∙ ap (λ w. name ++ (b'/' ∷ w)) h
          ∙ ap (λ d. name ++ (d ∷ (r ++ b'/' ∷ []))) slash
          ∙ sym (append_assoc name (c ∷ r) (b'/' ∷ []))
          ∙ ap (λ w. w ++ b'/' ∷ []) whole,
    )

-- The names, and how far the buffer is filled.
pub record Names (path buffer : Str) (names : List (Option Str)) (end : Str) : Type 0 where
  pub glued : Glued names path
  pub bounded : length end ≤ length buffer + length path + min (length path) 1
  pub few : length names ≤ length path

-- With a round for each byte the loop ends. The elements, with a slash behind each, are the path,
-- or the path with one slash more. The buffer takes one byte more than the path at most.
names_loop-Names :
    (f : ℕ) (path buffer : Str)
    → length path < f
    → (names : List (Option Str)) × (end : Str) × (names_loop f path buffer ≡ some (names, end))
      × Names path buffer names end
unfolding names_loop
names_loop-Names zero path buffer h = absurd (omega arith)
names_loop-Names (suc f) [] buffer h = (
  [],
  buffer,
  refl,
  record { glued = inl (unfold glue in refl); bounded = omega arith; few = omega arith },
)
names_loop-Names (suc f) (c ∷ path) buffer h =
    let (name, rest) = span (λ d. not (d == b'/')) (c ∷ path) in
    let whole = span-append (λ d. not (d == b'/')) (c ∷ path) in
    let sizes = length-span (λ d. not (d == b'/')) (c ∷ path) in
    let (names, end, run, more) =
      names_loop-Names f (skip_one rest) (buffer ++ copied name)
        (omega (arith, length-skip_one rest)) in
    (
      entry name ∷ names,
      end,
      rw run,
      record {
        glued =
            Glued-name name rest names (c ∷ path) whole (name_rest (c ∷ path)) more.glued
              (omega arith);
        few = omega (arith, more.few, length-skip_one rest);
        bounded = omega (
          arith,
          more.bounded,
          length-append buffer (copied name),
          length-copied name,
          length-skip_one rest,
        );
      },
    )

-- For a path of any length the list of its elements may not grow.
pub split_path-cases :
    (f : ℕ) (path buffer : Str)
    → length path < f
    → (split_path f path buffer ≡ none)
      ⊎ ((names : List (Option Str)) × (end : Str) × (split_path f path buffer ≡ some (names, end))
          × Names path buffer names end)
unfolding split_path
split_path-cases f path buffer h =
    let (names, end, run, good) = names_loop-Names f path buffer h in
    elim (pushed-cases names) [
      | inl e ↦ inl (rw (run, e))
      | inr e ↦ inr (names, end, rw (run, e), good)
    ]

-- The bytes of a key or a value: none of them ends it.
abbrev pub IsKey : Str → Type 0
IsKey = All (λ c. not (c == b'=') ≡ true)

abbrev pub IsValue : Str → Type 0
IsValue = All (λ c. (not (c == b'&') && not (c == b';')) ≡ true)

-- No byte of the buffer is a NUL.
abbrev pub IsText : Str → Type 0
IsText = All (λ c. not (c == 0) ≡ true)

drop-append : (a b : Str) → drop (length a) (a ++ b) ≡ b
drop-append [] b = refl
drop-append (c ∷ a) b = drop-append a b

string_at-text : (a s b : Str) → IsText s → string_at (a ++ (s ++ (0 ∷ b))) (length a) ≡ s
unfolding string_at
string_at-text a s b h =
    ap (λ w. (span (λ c. not (c == 0)) w).0) (drop-append a (s ++ 0 ∷ b))
    ∙ ap (λ (p : Str × Str). p.0) (span-stop (λ c. not (c == 0)) s 0 b h refl)

string_at-end : (a s : Str) → IsText s → string_at (a ++ s) (length a) ≡ s
unfolding string_at
string_at-end a s h =
    ap (λ w. (span (λ c. not (c == 0)) w).0) (drop-append a s)
    ∙ ap (λ (p : Str × Str). p.0) (span-All (λ c. not (c == 0)) s h)

-- One round of the loop, where the key is there and a `=` behind it.
query_step :
    (f c : ℕ) (query key value next buffer : Str) (k : ℕ) (r : Str)
    → span (λ d. not (d == b'=')) (c ∷ query) ≡ (k ∷ key, b'=' ∷ r)
    → span (λ d. not (d == b'&') && not (d == b';')) r ≡ (value, next)
    → split_query (suc f) (c ∷ query) buffer ≡ (
        let start : Str = buffer ++ (k ∷ key ++ 0 ∷ []) in
        add_param (k ∷ key) (length start) (split_query f next (start ++ value)))
unfolding split_query after
query_step f c query key value next buffer k r e₁ e₂ = rw (e₁, e₂)

add_param_total : (key : Str) (at : ℕ) (q : Parsed) → q ≢ no_fuel → add_param key at q ≢ no_fuel
add_param_total key at missing_key h e = h e
add_param_total key at missing_equals h e = h e
add_param_total key at no_fuel h e = h e
add_param_total key at (params ps b) h e = cc

key_round_total :
    (f : ℕ)
    → ((query buffer : Str) → length query < f → split_query f query buffer ≢ no_fuel)
    → (key rest buffer : Str) → length key + length rest ≤ f
    → key_round (split_query f) (key, rest) buffer ≢ no_fuel
unfolding key_round value_round
key_round_total f ih [] rest buffer h = λ e. cc
key_round_total f ih (k ∷ key) rest buffer h = elim (Option-cases (after b'=' rest)) [
  | inl e ↦ rw (e, key_round) (λ q. cc)
  | inr (r, e) ↦
      let shorter = length-span (λ d. not (d == b'&') && not (d == b';')) r in
      rw (e, key_round)
        (add_param_total _ _ _ (ih _ _ (omega (arith, ap length (after-cons b'=' rest e)))))
]

-- With a round for each byte and one more the split of a query does not run out of rounds: it
-- ends in the parameters or in an error.
pub split_query_total :
    (f : ℕ) (query buffer : Str) → length query < f → split_query f query buffer ≢ no_fuel
unfolding split_query
split_query_total zero query buffer h = absurd (omega arith)
split_query_total (suc f) [] buffer h = ground arith
split_query_total (suc f) (c ∷ query) buffer h =
    key_round_total f (split_query_total f) (span (λ d. not (d == b'=')) (c ∷ query)).0
      (span (λ d. not (d == b'=')) (c ∷ query)).1 buffer
      (omega (arith, length-span (λ d. not (d == b'=')) (c ∷ query)))

split_query-end : (f : ℕ) (buffer : Str) → split_query (suc f) [] buffer ≡ params [] buffer
unfolding split_query
split_query-end f buffer = refl

module _ (f k : ℕ) (key value : Str) (hk : IsKey (k ∷ key)) (hv : IsValue value) where
  -- A query of one parameter gives the key and the value.
  pub split_query_one :
      (buffer : Str)
      → IsText value
      → (at : ℕ) × (end : Str) × (split_query (suc (suc f)) (k ∷ key ++ b'=' ∷ value) buffer
          ≡ params ((k ∷ key, at) ∷ []) end)
        × (string_at end at ≡ value)
  split_query_one buffer ht =
      let start : Str = buffer ++ (k ∷ key ++ 0 ∷ []) in
      (
        length start,
        start ++ value,
        query_step (suc f) k (key ++ b'=' ∷ value) key value [] buffer k value
              (span-stop _ (k ∷ key) b'=' value hk refl) (span-All _ value hv)
            ∙ ap (add_param (k ∷ key) (length start)) (split_query-end f _),
        string_at-end start value ht,
      )

  -- Behind `&` the next key takes the `&` in, and overwrites the NUL of the value before it, which
  -- so runs on to the end of that key.
  pub split_query_two :
      (key' value' buffer : Str)
      → IsKey key'
      → IsValue value'
      → IsText value
      → IsText key'
      → IsText value'
      → (at at' : ℕ) × (end : Str) × (split_query
            (suc (suc (suc f)))
            (k ∷ key ++ (b'=' ∷ (value ++ (b'&' ∷ (key' ++ b'=' ∷ value')))))
            buffer
          ≡ params ((k ∷ key, at) ∷ (b'&' ∷ key', at') ∷ []) end)
        × (string_at end at ≡ value ++ (b'&' ∷ key'))
        × (string_at end at' ≡ value')
  split_query_two key' value' buffer hk' hv' ht hkt ht' =
      let start : Str = buffer ++ (k ∷ key ++ 0 ∷ []) in
      let start' : Str = (start ++ value) ++ (b'&' ∷ key' ++ 0 ∷ []) in
      (
        length start,
        length start',
        start' ++ value',
        query_step (suc (suc f)) k _ key value (b'&' ∷ (key' ++ b'=' ∷ value')) buffer k _
              (span-stop _ (k ∷ key) b'=' _ hk refl) (span-stop _ value b'&' _ hv refl)
            ∙ ap (add_param (k ∷ key) (length start)) (
                query_step (suc f) b'&' _ key' value' [] (start ++ value) b'&' value'
                  (span-stop _ (b'&' ∷ key') b'=' value' (refl, hk') refl) (span-All _ value' hv')
                ∙ ap (add_param (b'&' ∷ key') (length start')) (split_query-end f _)),
        ap (λ w. string_at w (length start)) (simp append_assoc)
            ∙ string_at-text start (value ++ b'&' ∷ key') value'
                (All-append _ value (b'&' ∷ key') ht (refl, hkt)),
        string_at-end start' value' ht',
      )
