-- ===== src/Hash/Entries.antt =====
-- What a store of library/type/hash.c means for the name, and for names that the table has or lacks.
use hemp.Base.{
  ℕ, ◌≡◌, ◌≢◌, refl, sym, ap, ◌∙◌, Bool, true, false, Option, none, some, [], ◌∷◌, ◌==◌,
  if◌then◌else◌, arith, Bool-cases, inl, inr, ==_refl, ==_iff,
}
use hemp.Chars.{Str}
use hemp.Hash.Table.{HashFunction, Table, store, fetch}
use hemp.Hash.Valid.{IsValid, view}
use hemp.Hash.Laws.{hash_of, fetch-view, fetch-store, store-Updates}

module _ {ℓ} {V : Type ℓ} ⦃hash : HashFunction⦄ where
  pub fetch-store_same :
      (t : Table V) (name : Str) (v : V) → IsValid t → fetch (store t name v ∷ []) name ≡ some v
  fetch-store_same t name v valid = fetch-store t name name v valid ∙ rw (==_refl (hash_of name))

  -- A name that the table has keeps its value where another one, that it lacks, is stored.
  pub fetch-store_kept :
      (t : Table V) (name other : Str) (v w : V)
      → IsValid t
      → fetch (t ∷ []) name ≡ none
      → fetch (t ∷ []) other ≡ some w
      → fetch (store t name v ∷ []) other ≡ some w
  fetch-store_kept t name other v w valid absent h =
      fetch-store t name other v valid ∙ elim (Bool-cases (hash_of other == hash_of name)) [
        | inl same ↦
            let gone : none ≡ some w =
              sym absent
              ∙ fetch-view t name valid
              ∙ ap (view t) (sym ((==_iff (hash_of other) (hash_of name)).0 same))
              ∙ sym (fetch-view t other valid)
              ∙ h in
            ground (arith, gone)
        | inr differs ↦ rw differs h
      ]

  unset :
      (b : Bool) (v : V) (old new : Option V)
      → new ≡ (if b then some v else old)
      → new ≡ none
      → (b ≡ false) × (old ≡ none)
  unset true v old new e n = ground (arith, e, n)
  unset false v old new e n = (refl, sym e ∙ n)

  -- What is not there behind a store was not there before, and is not what was stored.
  pub view-store-none :
      (t : Table V) (name : Str) (v : V) (q : ℕ)
      → IsValid t
      → view (store t name v) q ≡ none
      → (view t q ≡ none) × (hash_of name ≢ q)
  view-store-none t name v q valid e =
      let (_, reads, _, _) = store-Updates t name v valid in
      let (other, old) = unset (q == hash_of name) v (view t q) _ (reads q) e in
      (old, ground (arith, other))
