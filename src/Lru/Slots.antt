-- ===== src/Lru/Slots.antt =====
-- The slots of the cache of library/cache.c and their links. A pointer to a slot is the slot's number in
-- the pool, which hands them out in order; `fresher` and `staler` are the fields of all slots.
use hemp.Base.{ℕ, ◌+◌, Bool, true, false, Option, none, some, ◌==◌, ◌&&◌, not, leb, if◌then◌else◌}

pub record Links : Type 0 where
  pub fresher : ℕ → Option ℕ
  pub staler : ℕ → Option ℕ
  pub fresh : Option ℕ
  pub stale : Option ℕ
  pub unused : Option ℕ
  pub used : ℕ
  pub size : ℕ

-- An assignment to a field of a slot, and one to that of a slot that may be NULL.
unfoldable pub update : (ℕ → Option ℕ) → ℕ → Option ℕ → ℕ → Option ℕ
update f a v b = if b == a then v else f b

unfoldable pub update_if : (ℕ → Option ℕ) → Option ℕ → Option ℕ → ℕ → Option ℕ
unfolding update
update_if f none v = f
update_if f (some a) v = update f a v

unfoldable pub or_else : Option ℕ → Option ℕ → Option ℕ
or_else none q = q
or_else (some p) q = some p

-- `if (p) ...; else head = q`
unfoldable pub kept_if : Option ℕ → Option ℕ → Option ℕ → Option ℕ
kept_if none head q = q
kept_if (some p) head q = head

-- `hemp_cache_lru_freshen_slot`
unfoldable pub freshen_slot : Links → ℕ → Links
unfolding update update_if or_else
freshen_slot lru slot = record lru {
  fresher = update (update_if lru.fresher lru.fresh (some slot)) slot none;
  staler = update lru.staler slot lru.fresh;
  fresh = some slot;
  stale = or_else lru.stale (some slot);
}

-- The links on either side bypass a slot.
unfoldable pub bypass : Links → ℕ → Links
unfolding update_if kept_if
bypass lru slot =
    let staler = update_if lru.staler (lru.fresher slot) (lru.staler slot) in
    record lru {
      staler = staler;
      fresh = kept_if (lru.fresher slot) lru.fresh (lru.staler slot);
      fresher = update_if lru.fresher (staler slot) (lru.fresher slot);
      stale = kept_if (staler slot) lru.stale (lru.fresher slot);
    }

unfoldable pub is_slot : Option ℕ → ℕ → Bool
is_slot none slot = false
is_slot (some a) slot = a == slot

-- `hemp_cache_lru_reuse_slot`
unfoldable pub reuse_slot : Links → ℕ → Links
unfolding is_slot bypass freshen_slot
reuse_slot lru slot = if is_slot lru.fresh slot then lru else freshen_slot (bypass lru slot) slot

-- `hemp_cache_lru_unused_slot`
unfoldable pub unused_slot : Links → ℕ → Links
unfolding bypass update
unused_slot lru slot =
    let l = bypass lru slot in
    record l { staler = update l.staler slot l.unused; unused = some slot }

-- The stalest slot leaves the list.
unfoldable pub evict : Links → ℕ → Links
unfolding update_if
evict lru slot = record lru {
  stale = lru.fresher slot;
  staler = update_if lru.staler (lru.fresher slot) none;
}

-- `hemp_cache_lru_use_slot`: the slot that is used, `none` where there is no stale slot to use.
-- A slot that holds a value, which is to be freed and deleted from the index, is told by `true`.
unfoldable pub use_slot : Links → Option (Bool × ℕ × Links)
unfolding evict freshen_slot
use_slot lru = elim lru.unused [
  | some slot ↦ some (false, slot, freshen_slot (record lru { unused = lru.staler slot }) slot)
  | none ↦
      if not (lru.size == 0) && leb lru.size lru.used
      then (elim lru.stale [
        | some slot ↦ some (true, slot, freshen_slot (evict lru slot) slot)
        | none ↦ none
      ])
      else some (false, lru.used, freshen_slot (record lru { used = lru.used + 1 }) lru.used)
]
