-- ===== src/Lru/Laws.antt =====
-- What a fetch sees after a store, and how the emptying of the cache ends.
use hemp.Base.{
  ℕ, zero, suc, ◌≤◌, ◌<◌, ◌≡◌, refl, inl, inr, ap, ◌∙◌, Bool, true, false, ◌||◌, Option, none, some,
  List, [], ◌∷◌, length, ◌==◌, if◌then◌else◌, ◌>>=◌, arith, Bool-cases,
}
use hemp.Chars.{Str}
use hemp.Hash.Table.{HashFunction}
use hemp.Hash.Table
use hemp.Hash.Valid.{IsValid}
use hemp.Hash.Laws.{hash_of, fetch-store, delete-Updates}
use hemp.Lru.Slots.{Links, update, use_slot, reuse_slot}
use hemp.Lru.Links.{first_or, Down}
use hemp.Lru.Order.{Linked, use_slot-cyclic}
use hemp.Lru.Cache.{
  Cache, assign_to, fetch, fill_slot, store, empty, empty_from, empty_round, empty_case, store_case,
  fetch_case,
}

-- The slot is in the list.
unfoldable pub among : ℕ → List ℕ → Bool
among b [] = false
among b (a ∷ xs) = (b == a) || among b xs

found_after :
    ⦃hash : HashFunction⦄ (t : Table.Table ℕ) (key : Str) (slot : ℕ)
    → IsValid t
    → Table.fetch (Table.store t key slot ∷ []) key ≡ some slot
found_after ⦃hash⦄ t key slot valid =
    let same : (hash_of key == hash_of key) ≡ true = ground arith in
    fetch-store t key key slot valid ∙ rw same refl

module _ {ℓ} {V : Type ℓ} ⦃hash : HashFunction⦄ where
  -- The cache after the loop: the slots of the list have lost their values, the others have not.
  abbrev Emptied : Cache V → List ℕ → Cache V → Type ℓ
  Emptied c xs c' = (b : ℕ) → c'.value b ≡ (if among b xs then none else c.value b)

  cleared :
      (f : ℕ → Option V) (a b : ℕ) (r : Bool)
      → (if r then none else assign_to f a none b) ≡ (if (b == a) || r then none else f b)
  unfolding assign_to
  cleared f a b true = elim (Bool-cases (b == a)) [ inl e ↦ rw e refl | inr e ↦ rw e refl ]
  cleared f a b false = elim (Bool-cases (b == a)) [ inl e ↦ rw e refl | inr e ↦ rw e refl ]

  empty_from-Emptied :
      (f a : ℕ) (xs : List ℕ) (c : Cache V)
      → Down c.links.staler (a ∷ xs) none
      → length xs < f
      → (c' : Cache V) × (empty_from f a c ≡ some c') × Emptied c (a ∷ xs) c'
  unfolding empty_from empty_round Down first_or among
  empty_from-Emptied zero a xs c d h = absurd (omega arith)
  empty_from-Emptied (suc f) a [] c (e, d) h =
      let freed = record c { value = assign_to c.value a none } in
      (
        record freed {
          links = record c.links {
            staler = update c.links.staler a c.links.unused;
            unused = some a;
          };
        },
        ap (λ n. empty_round (empty_from f) a freed n) e,
        λ b. cleared c.value a b false,
      )
  empty_from-Emptied (suc f) a (x ∷ xs) c (e, d) h =
      let freed = record c { value = assign_to c.value a none } in
      let (c', found, values) = empty_from-Emptied f x xs freed d (omega arith) in
      (
        c',
        ap (λ n. empty_round (empty_from f) a freed n) e ∙ found,
        λ b. values b ∙ cleared c.value a b (among b (x ∷ xs)),
      )

  -- Where the links are those of a list, the emptying ends with a round for each of its slots; the slots
  -- of the list have no value then,
  -- and every other slot has the value that it had.
  pub empty-Emptied :
      (f : ℕ) (xs : List ℕ) (c : Cache V)
      → Linked c.links xs
      → length xs ≤ f
      → (c' : Cache V) × (empty f c ≡ some c')
        × ((b : ℕ) → c'.value b ≡ (if among b xs then none else c.value b))
  unfolding empty empty_case first_or among
  empty-Emptied f [] c h le = (c, ap (λ p. empty_case f c p) h.freshest, λ b. refl)
  empty-Emptied f (a ∷ xs) c h le =
      let (c', found, values) = empty_from-Emptied f a xs c h.downs (omega arith) in
      (c', ap (λ p. empty_case f c p) h.freshest ∙ found, values)

  circles : (f a : ℕ) (c : Cache V) → c.links.staler a ≡ some a → empty_from f a c ≡ none
  unfolding empty_from empty_round
  circles zero a c e = refl
  circles (suc f) a c e =
      let freed = record c { value = assign_to c.value a none } in
      ap (λ n. empty_round (empty_from f) a freed n) e ∙ circles f a freed e

  empty-circles :
      (f a : ℕ) (c : Cache V)
      → c.links.fresh ≡ some a
      → c.links.staler a ≡ some a
      → empty f c ≡ none
  unfolding empty empty_case
  empty-circles f a c e e' = ap (λ p. empty_case f c p) e ∙ circles f a c e'

  store_new :
      (c : Cache V) (key : Str) (v : Option V) (u : Bool × ℕ × Links)
      → Table.fetch (c.index ∷ []) key ≡ none
      → use_slot c.links ≡ some u
      → store c key v ≡ some (fill_slot c key v u)
  unfolding store store_case
  store_new c key v u e e' =
      ap (λ o. store_case c key v o) e ∙ ap (λ o. o >>= λ w. some (fill_slot c key v w)) e'

  -- Where a bounded cache has one slot in its list, none unused and as many taken as the bound, a store
  -- under a key that the index lacks gives a cache that can not be emptied: the loop does not end in any
  -- number of rounds.
  pub store-empty_hangs :
      (c : Cache V) (a : ℕ) (key : Str) (v : Option V)
      → Linked c.links (a ∷ [])
      → c.links.unused ≡ none
      → 1 ≤ c.links.size
      → c.links.size ≤ c.links.used
      → Table.fetch (c.index ∷ []) key ≡ none
      → (c' : Cache V) × (store c key v ≡ some c') × ((f : ℕ) → empty f c' ≡ none)
  unfolding fill_slot
  store-empty_hangs c a key v h u one full absent =
      let (l, used, front, again) = use_slot-cyclic c.links a h u one full in
      (
        fill_slot c key v (true, a, l),
        store_new c key v (true, a, l) absent used,
        λ f. empty-circles f a (fill_slot c key v (true, a, l)) front again,
      )

  assigned : (f : ℕ → Option V) (slot : ℕ) (v : Option V) → assign_to f slot v slot ≡ v
  unfolding assign_to
  assigned f slot v = let e : (slot == slot) ≡ true = ground arith in rw e refl

  index-IsValid :
      (c : Cache V) (slot : ℕ) (evicted : Bool)
      → IsValid c.index
      → IsValid (if evicted then (Table.delete c.index (c.key slot)).1 else c.index)
  index-IsValid c slot true valid = (delete-Updates c.index (c.key slot) valid).1
  index-IsValid c slot false valid = valid

  fetch-fill_slot :
      (c : Cache V) (key : Str) (v : Option V) (evicted : Bool) (slot : ℕ) (links : Links)
      → IsValid c.index
      → (fetch (fill_slot c key v (evicted, slot, links)) key).0 ≡ v
  unfolding fetch fetch_case fill_slot
  fetch-fill_slot c key v evicted slot links valid =
      ap (λ o. (fetch_case (fill_slot c key v (evicted, slot, links)) o).0)
        (found_after _ key slot (index-IsValid c slot evicted valid))
      ∙ assigned c.value slot v

  -- With a valid index that lacks the key, where there is a slot to use, a store gives a cache in which a
  -- fetch under the key has the value, whether the slot was unused, new or given up by another entry.
  pub fetch-store_new :
      (c : Cache V) (key : Str) (v : Option V) (u : Bool × ℕ × Links)
      → IsValid c.index
      → Table.fetch (c.index ∷ []) key ≡ none
      → use_slot c.links ≡ some u
      → (c' : Cache V) × (store c key v ≡ some c') × ((fetch c' key).0 ≡ v)
  fetch-store_new c key v (evicted, slot, links) valid absent used = (
    _,
    store_new c key v (evicted, slot, links) absent used,
    fetch-fill_slot c key v evicted slot links valid,
  )

  -- A value that is stored under a key of the index is lost: a fetch finds the value from before.
  pub fetch-store_known :
      (c : Cache V) (key : Str) (v : Option V) (slot : ℕ)
      → Table.fetch (c.index ∷ []) key ≡ some slot
      → (c' : Cache V) × (store c key v ≡ some c')
        × ((fetch c' key).0 ≡ c.value slot)
        × ((fetch c key).0 ≡ c.value slot)
  unfolding store store_case fetch fetch_case
  fetch-store_known c key v slot e =
      let used = record c { links = reuse_slot c.links slot } in
      (
        used,
        ap (λ o. store_case c key v o) e,
        ap (λ o. (fetch_case used o).0) e,
        ap (λ o. (fetch_case c o).0) e,
      )
