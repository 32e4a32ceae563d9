-- ===== src/Lru/Cache.antt =====
-- The cache of library/cache.c over its links: the keys and values of the slots, and the index, a hash
-- table from keys to slots. The freeing of values is left out.
use hemp.Base.{ℕ, zero, suc, Bool, Option, none, some, [], ◌∷◌, ◌==◌, if◌then◌else◌, ◌>>=◌}
use hemp.Chars.{Str}
use hemp.Hash.Table.{HashFunction, Table}
use hemp.Hash.Table
use hemp.Lru.Slots.{Links, update, reuse_slot, unused_slot, use_slot}

pub record Cache {ℓ} (V : Type ℓ) : Type ℓ where
  pub links : Links
  pub key : ℕ → Str
  pub value : ℕ → Option V
  pub index : Table ℕ

-- An assignment to the field of a slot.
unfoldable pub assign_to {ℓ} : {A : Type ℓ} → (ℕ → A) → ℕ → A → ℕ → A
assign_to f slot v b = if b == slot then v else f b

module _ {ℓ} {V : Type ℓ} ⦃hash : HashFunction⦄ where
  unfoldable pub fetch_case : Cache V → Option ℕ → Option V × Cache V
  unfolding reuse_slot
  fetch_case c none = (none, c)
  fetch_case c (some slot) = (c.value slot, record c { links = reuse_slot c.links slot })

  -- `hemp_cache_lru_fetch`
  unfoldable pub fetch : Cache V → Str → Option V × Cache V
  unfolding fetch_case
  fetch c key = fetch_case c (Table.fetch (c.index ∷ []) key)

  -- The new entry of `hemp_cache_lru_store`
  unfoldable pub fill_slot : Cache V → Str → Option V → Bool × ℕ × Links → Cache V
  unfolding assign_to
  fill_slot c key v (evicted, slot, links) = record c {
    links = links;
    key = assign_to c.key slot key;
    value = assign_to c.value slot v;
    index =
        Table.store (if evicted then (Table.delete c.index (c.key slot)).1 else c.index) key slot;
  }

  unfoldable pub store_case : Cache V → Str → Option V → Option ℕ → Option (Cache V)
  unfolding fill_slot use_slot reuse_slot
  store_case c key v (some slot) = some (record c { links = reuse_slot c.links slot })
  store_case c key v none = use_slot c.links >>= λ u. some (fill_slot c key v u)

  -- `hemp_cache_lru_store`; `none` where `hemp_cache_lru_use_slot` finds no slot.
  unfoldable pub store : Cache V → Str → Option V → Option (Cache V)
  unfolding store_case
  store c key v = store_case c key v (Table.fetch (c.index ∷ []) key)

  -- `hemp_cache_lru_delete`
  unfoldable pub delete : Cache V → Str → Cache V
  unfolding unused_slot
  delete c key =
      let (found, index) = Table.delete c.index key in
      elim found [
        | none ↦ record c { index = index }
        | some slot ↦ record c { index = index; links = unused_slot c.links slot }
      ]

  -- A round of the loop of `hemp_cache_lru_empty`, by the field `staler` of its slot.
  unfoldable pub empty_round :
      (ℕ → Cache V → Option (Cache V)) → ℕ → Cache V → Option ℕ → Option (Cache V)
  unfolding update
  empty_round go_on slot c (some next) = go_on next c
  empty_round go_on slot c none =
      let l = c.links in
      some (record c {
        links = record l { staler = update l.staler slot l.unused; unused = some slot };
      })

  -- The loop, from a slot on, on fuel.
  unfoldable pub empty_from : ℕ → ℕ → Cache V → Option (Cache V)
  unfolding assign_to empty_round
  empty_from zero slot c = none
  empty_from (suc f) slot c =
      empty_round (empty_from f) slot (record c { value = assign_to c.value slot none })
        (c.links.staler slot)

  unfoldable pub empty_case : ℕ → Cache V → Option ℕ → Option (Cache V)
  unfolding empty_from
  empty_case f c none = some c
  empty_case f c (some slot) = empty_from f slot c

  -- `hemp_cache_lru_empty`
  unfoldable pub empty : ℕ → Cache V → Option (Cache V)
  unfolding empty_case
  empty f c = empty_case f c c.links.fresh
