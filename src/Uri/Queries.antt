-- ===== src/Uri/Queries.antt =====
-- What `hemp_uri_split_query` of library/uri.c reads from a query, and where it stops with an error.
use hemp.Base.{
  ℕ, zero, suc, ◌≤◌, ◌<◌, ◌≡◌, refl, ap, sym, ◌∙◌, inl, inr, Bool, true, false, ◌&&◌, not, none,
  List, [], ◌∷◌, ◌++◌, ◌==◌, length, All, arith, Option-cases, Bool-cases, append-nil,
  length-append,
}
use mathlib.Core.Path.{subst}
use hemp.Chars.{Str, span, span-append, length-span, after, after-cons}
use hemp.Uri.Parts.{
  Parsed, missing_key, missing_equals, no_fuel, params, key_round, value_round, add_param,
  split_query,
}
use hemp.Uri.PartLaws.{IsKey, IsValue}

-- Nothing, or a byte that ends a value
abbrev pub AtStop : Str → Type 0
AtStop [] = Unit
AtStop (c ∷ s) = (not (c == b'&') && not (c == b';')) ≡ false

-- A query starts with a parameter, where its key is not empty and the value goes up to `&`, `;` or the end.
pub record Starts (query key value rest : Str) : Type 0 where
  pub text : query ≡ key ++ (b'=' ∷ (value ++ rest))
  pub named : 1 ≤ length key
  pub is_key : IsKey key
  pub is_value : IsValue value
  pub stops : AtStop rest

-- How a query is read, with the bytes in front of the buffer's end. Each parameter is its key, and the offset of
-- the value, which is behind the key and a NUL.
pub data Queried : Str → Str → Parsed → Type 0 where
  at_end : (buffer : Str) → Queried [] buffer (params [] buffer)
  no_key : (rest buffer : Str) → Queried (b'=' ∷ rest) buffer missing_key
  no_equals : (c : ℕ) (s buffer : Str) → IsKey (c ∷ s) → Queried (c ∷ s) buffer missing_equals
  one_more :
      (query key value rest buffer : Str) (ps : List (Str × ℕ)) (end : Str)
      → Starts query key value rest
      → Queried rest ((buffer ++ (key ++ 0 ∷ [])) ++ value) (params ps end)
      → Queried query buffer (params ((key, length (buffer ++ (key ++ 0 ∷ []))) ∷ ps) end)
  key_later :
      (query key value rest buffer : Str)
      → Starts query key value rest
      → Queried rest ((buffer ++ (key ++ 0 ∷ [])) ++ value) missing_key
      → Queried query buffer missing_key
  equals_later :
      (query key value rest buffer : Str)
      → Starts query key value rest
      → Queried rest ((buffer ++ (key ++ 0 ∷ [])) ++ value) missing_equals
      → Queried query buffer missing_equals

span-IsAll : (p : ℕ → Bool) (s : Str) → All (λ d. p d ≡ true) (span p s).0
unfolding span
span-IsAll p [] = tt
span-IsAll p (c ∷ s) = elim (Bool-cases (p c)) [
  | inl e ↦ rw e (e, span-IsAll p s)
  | inr e ↦ rw e tt
]

span-AtStop : (s : Str) → AtStop (span (λ d. not (d == b'&') && not (d == b';')) s).1
unfolding span
span-AtStop [] = tt
span-AtStop (c ∷ s) = elim (Bool-cases (not (c == b'&') && not (c == b';'))) [
  | inl e ↦ rw e (span-AtStop s)
  | inr e ↦ rw e e
]

-- Behind a key there is the end of the query or `=`.
key_end :
    (s : Str)
    → after b'=' (span (λ d. not (d == b'=')) s).1 ≡ none
    → (span (λ d. not (d == b'=')) s).1 ≡ []
unfolding span after
key_end [] h = refl
key_end (c ∷ s) h = elim (Bool-cases (c == b'=')) [
  | inl e ↦ ground (arith, h)
  | inr e ↦ ground (arith, h, key_end s)
]

added :
    (query key value rest buffer : Str) (q : Parsed)
    → Starts query key value rest
    → Queried rest ((buffer ++ (key ++ 0 ∷ [])) ++ value) q
    → Queried query buffer (add_param key (length (buffer ++ (key ++ 0 ∷ []))) q)
added query key value rest buffer missing_key s h = key_later query key value rest buffer s h
added query key value rest buffer missing_equals s h = equals_later query key value rest buffer s h
added query key value rest buffer no_fuel s h = elim h [ ]
added query key value rest buffer (params ps end) s h =
    one_more query key value rest buffer ps end s h

query_key :
    (f : ℕ)
    → ((query buffer : Str) → length query < f → Queried query buffer (split_query f query buffer))
    → (query key rest buffer : Str) → key ++ rest ≡ query
    → IsKey key
    → (after b'=' rest ≡ none → rest ≡ [])
    → 1 ≤ length query
    → length query ≤ f
    → Queried query buffer (key_round (split_query f) (key, rest) buffer)
unfolding key_round value_round
query_key f ih query [] rest buffer e k ends some_there h = elim (Option-cases (after b'=' rest)) [
  | inl a ↦ absurd (omega (arith, ap length (sym e ∙ ends a), some_there))
  | inr (r, a) ↦
      subst (λ q. Queried q buffer missing_key) (sym (after-cons b'=' rest a) ∙ e) (no_key r buffer)
]
query_key f ih query (c ∷ key) rest buffer e k ends some_there h =
    elim (Option-cases (after b'=' rest)) [
      | inl a ↦
          rw (key_round, a)
            (subst (λ q. Queried q buffer missing_equals)
              (sym (append-nil (c ∷ key)) ∙ ap (λ r. c ∷ key ++ r) (sym (ends a)) ∙ e)
              (no_equals c key buffer k))
      | inr (r, a) ↦
          let (value, next) = span (λ d. not (d == b'&') && not (d == b';')) r in
          let whole : c ∷ key ++ (b'=' ∷ (value ++ next)) ≡ query =
            ap (λ w. c ∷ key ++ (b'=' ∷ w))
              (span-append (λ d. not (d == b'&') && not (d == b';')) r)
            ∙ ap (λ w. c ∷ key ++ w) (sym (after-cons b'=' rest a))
            ∙ e in
          let shorter = length-span (λ d. not (d == b'&') && not (d == b';')) r in
          let starts : Starts query (c ∷ key) value next = record {
            text = sym whole;
            named = omega arith;
            is_key = k;
            is_value = span-IsAll (λ d. not (d == b'&') && not (d == b';')) r;
            stops = span-AtStop r;
          } in
          rw (key_round, a)
            (added query (c ∷ key) value next buffer _ starts (
              ih next _ (
                omega (
                  arith,
                  shorter,
                  h,
                  ap length e,
                  length-append (c ∷ key) rest,
                  ap length (after-cons b'=' rest a),
                ))))
    ]

-- Every query, with a round of fuel for each byte and one more, is read as that says.
pub split_query-Queried :
    (f : ℕ) (query buffer : Str)
    → length query < f
    → Queried query buffer (split_query f query buffer)
unfolding split_query
split_query-Queried zero query buffer h = absurd (omega arith)
split_query-Queried (suc f) [] buffer h = at_end buffer
split_query-Queried (suc f) (c ∷ query) buffer h =
    query_key f (split_query-Queried f) (c ∷ query) (span (λ d. not (d == b'=')) (c ∷ query)).0
      (span (λ d. not (d == b'=')) (c ∷ query)).1 buffer
      (span-append (λ d. not (d == b'=')) (c ∷ query))
      (span-IsAll (λ d. not (d == b'=')) (c ∷ query)) (key_end (c ∷ query)) (omega arith)
      (omega arith)

pub fuel_left : (query buffer : Str) → Queried query buffer no_fuel → ⊥
fuel_left query buffer h = elim h [ ]
