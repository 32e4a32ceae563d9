-- ===== src/Ptrees/Match.antt =====
-- Where a match of the tree leaves the source.
use mathlib.Core.Option.{some-injective}
use hemp.Base.{Left, Left-more, ℕ, ◌≡◌, refl, ap, ◌∙◌, Option, none, some, [], ◌∷◌, ◌++◌, arith}
use hemp.Chars.{Str}
use hemp.Ptrees.Tree.{
  Ptree, empty, node, Cursor, seek_at, tail_of, match_step, match_at, moved_on, match_more,
}

module _ {ℓ} {V : Type ℓ} where
  match_step-Left :
      (src : Str) (cur : Cursor V) (value : Option V) (t : Ptree V) (tail : Str)
      → ((cur : Cursor V) (value : Option V) → Left src (match_at src cur value).1)
      → Left src (match_step (match_at src) src cur value t tail).1
  unfolding match_step
  match_step-Left src cur value (node k ks v b e a) tail ih = ih _ _
  match_step-Left src cur value empty [] ih = record { taken = []; source = refl }
  match_step-Left src cur value empty (d ∷ ds) ih = ih _ _

  match_at-Left :
      (src : Str) (cur : Cursor V) (value : Option V) → Left src (match_at src cur value).1
  unfolding match_at
  match_at-Left [] cur value = record { taken = []; source = refl }
  match_at-Left (c ∷ src) cur value =
      elim (seek_at c cur)
        as (λ o.
          Left (c ∷ src)
            (elim o as (λ _. Option V × Str) [
              | none ↦ (value, c ∷ src)
              | some found ↦
                  match_step (match_at src) src found value found.equal (tail_of found.rest)
            ]).1) [
              | none ↦ record { taken = []; source = refl }
              | some found ↦ Left-more c src _ (
                  match_step-Left src found value found.equal (tail_of found.rest)
                    (match_at-Left src))
            ]

  -- A match that comes to a payload has left the first character behind.
  match_at-moved :
      (c : ℕ) (src : Str) (cur : Cursor V) (v : V)
      → (match_at (c ∷ src) cur none).0 ≡ some v
      → Left src (match_at (c ∷ src) cur none).1
  unfolding match_at
  match_at-moved c src cur v =
      elim (seek_at c cur)
        as (λ o.
          let r : Option V × Str = elim o as (λ _. Option V × Str) [
            | none ↦ (none, c ∷ src)
            | some found ↦ match_step (match_at src) src found none found.equal (tail_of found.rest)
          ] in
          r.0 ≡ some v → Left src r.1) [
            | none ↦ λ e. ground arith
            | some found ↦ λ e.
                match_step-Left src found none found.equal (tail_of found.rest) (match_at-Left src)
          ]

  answer :
      (found : Option V) (left rest : Str) (v : V)
      → moved_on found left ≡ some (v, rest)
      → (found ≡ some v) × (left ≡ rest)
  answer none left rest v e = ground arith
  answer (some w) left rest v e =
      let p : ◌≡◌ {A = V × Str} (w, left) (v, rest) = some-injective (w, left) (v, rest) e in
      (ap (λ q. some q.0) p, ap (λ q. q.1) p)

  nothing-moved :
      {P : Type 0} (cur : Cursor V) (v : V) (rest : Str)
      → moved_on (match_at [] cur none).0 (match_at [] cur none).1 ≡ some (v, rest)
      → P
  unfolding match_at
  nothing-moved cur v rest e = ground arith

  -- A match that gives a payload has taken at least one character of the source, and leaves the rest of it
  -- as it stands.
  pub match_more-suffix :
      (t : Ptree V) (src : Str) (v : V) (rest : Str)
      → match_more t src ≡ some (v, rest)
      → (c : ℕ) × (taken : Str) × (src ≡ c ∷ taken ++ rest)
  unfolding match_more
  match_more-suffix empty src v rest e = ground arith
  match_more-suffix (node k ks x b q a) [] v rest e =
      nothing-moved (record { rest = k ∷ ks; value = x; before = b; equal = q; next = a }) v rest e
  match_more-suffix (node k ks x b q a) (c ∷ src) v rest e =
      let cur : Cursor V = record { rest = k ∷ ks; value = x; before = b; equal = q; next = a } in
      let r = answer (match_at (c ∷ src) cur none).0 (match_at (c ∷ src) cur none).1 rest v e in
      let l = match_at-moved c src cur v r.0 in
      (c, l.taken, ap (λ s. c ∷ s) (l.source ∙ ap (λ s. l.taken ++ s) r.1))

-- What is left behind a match is left of what stands behind the first character.
pub match_more-Left {ℓ} :
    {V : Type ℓ} (t : Ptree V) (c : ℕ) (src : Str) (v : V) (rest : Str)
    → match_more t (c ∷ src) ≡ some (v, rest)
    → Left src rest
match_more-Left t c src v rest e =
    let m = match_more-suffix t (c ∷ src) v rest e in record { taken = m.1; source = ap tail m.2 }
  where
    tail : Str → Str
    tail [] = []
    tail (c ∷ s) = s
