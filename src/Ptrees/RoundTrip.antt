-- ===== src/Ptrees/RoundTrip.antt =====
-- What a fetch gives behind a store.
use mathlib.Core.Path.{subst}
use hemp.Base.{
  ℕ, ◌≡◌, refl, sym, ap, ◌∙◌, true, false, not, some, [], ◌∷◌, if◌then◌else◌, arith, Bool-cases,
  inl, inr, is_some,
}
use hemp.Chars.{Str, str_eq, str_eq_iff}
use hemp.Ptrees.Tree.{Ptree, store, fetch}
use hemp.Ptrees.Laws.{find, Filled}
use hemp.Ptrees.Stores.{store-Stores}
use hemp.Ptrees.Duplicates.{store-is_some}
use hemp.Ptrees.Fetch.{fetch-find}

str_eq_refl : (s : Str) → str_eq s s ≡ true
str_eq_refl s = (str_eq_iff s s).1 refl

module _ {ℓ} {V : Type ℓ} where
  key-some :
      (c : ℕ) (cs : Str) (v w : V) (t t' : Ptree V)
      → store (c ∷ cs) v t ≡ some t'
      → find (c ∷ cs) t ≡ some w
      → ⊥
  key-some c cs v w t t' e f =
      none_some (sym (ap is_some e) ∙ store-is_some c cs v t ∙ ap (λ o. not (is_some o)) f)
    where
      none_some : true ≡ false → ⊥
      none_some x = ground arith

  other :
      (j key : Str) (v w : V) (t t' : Ptree V)
      → store key v t ≡ some t'
      → find j t ≡ some w
      → str_eq j key ≡ false
  unfolding store
  other j [] v w t t' e f = ground arith
  other j (c ∷ cs) v w t t' e f = elim (Bool-cases (str_eq j (c ∷ cs))) [
    | inl p ↦
        absurd (
          key-some c cs v w t t' e (subst (λ k. find k t ≡ some w) ((str_eq_iff j (c ∷ cs)).0 p) f))
    | inr p ↦ p
  ]

  -- A fetch behind a store that succeeded, in a tree where every node without a payload has a tree below,
  -- gives the payload that was stored under its key, and under every key that the tree had a payload for that
  -- payload.
  pub fetch-stored :
      (key : Str) (v : V) (t t' : Ptree V)
      → Filled t
      → store key v t ≡ some t'
      → (fetch key t' ≡ some v) × ((j : Str) (w : V) → find j t ≡ some w → fetch j t' ≡ some w)
  fetch-stored key v t t' f e =
      let s = store-Stores key v t t' f e in
      (
        fetch-find key v t'
            (s.reads key ∙ ap (λ b. if b then some v else find key t) (str_eq_refl key)),
        λ j w g.
            fetch-find j w t'
              (s.reads j ∙ ap (λ b. if b then some v else find j t) (other j key v w t t' e g) ∙ g),
      )
