-- ===== src/Lru/Tests.antt =====
-- Runs of the cache, and the theorems at small caches.
use hemp.Base.{
  ℕ, zero, suc, ◌≡◌, refl, Bool, true, false, Option, none, some, [], ◌∷◌, if◌then◌else◌, arith,
}
use hemp.Chars.{Str}
use hemp.Hash.Table.{HashFunction, Table, jenkins}
use hemp.Hash.Table
use hemp.Hash.Jenkins.{jenkins32}
use hemp.Hash.Valid.{init-IsValid}
use hemp.Lru.Slots.{Links, reuse_slot, use_slot, freshen_slot}
use hemp.Lru.Links.{Up, Down, Distinct, first_or, last_or}
use hemp.Lru.Order.{Linked, reuse_slot-Linked, use_slot-evicts}
use hemp.Lru.Cache.{Cache, fetch, store, empty}
use hemp.Lru.Laws.{among, empty-Emptied, store-empty_hangs, fetch-store_new}

instance abbrev chosen : HashFunction
chosen = jenkins

program : Unit {0}
unfolding jenkins32 Table.wider Table.init Table.store Table.fetch Table.delete
program = tt

-- Three slots, of which 2 is the freshest and 0 the stalest, in a cache of three.
abbrev up : ℕ → Option ℕ
up zero = some 1
up (suc zero) = some 2
up _ = none

abbrev down : ℕ → Option ℕ
down (suc zero) = some 0
down (suc (suc zero)) = some 1
down _ = none

abbrev three : Links
three = record {
  fresher = up;
  staler = down;
  fresh = some 2;
  stale = some 0;
  unused = none;
  used = 3;
  size = 3;
}

three-Linked : Linked three (2 ∷ 1 ∷ 0 ∷ [])
unfolding Up Down Distinct first_or last_or
three-Linked = record {
  distinct = (
    (λ e. omega (arith, e), (λ e. omega (arith, e), tt)),
    ((λ e. omega (arith, e), tt), (tt, tt)),
  );
  ups = (refl, (refl, (refl, tt)));
  downs = (refl, (refl, (refl, tt)));
  freshest = refl;
  stalest = refl;
}

abbrev one : Links
one = record {
  fresher = λ a. none;
  staler = λ a. none;
  fresh = some 0;
  stale = some 0;
  unused = none;
  used = 1;
  size = 1;
}

one-Linked : Linked one (0 ∷ [])
unfolding Up Down Distinct first_or last_or
one-Linked = record {
  distinct = (tt, tt);
  ups = (refl, tt);
  downs = (refl, tt);
  freshest = refl;
  stalest = refl;
}

abbrev foo : Str
foo = b'f' ∷ b'o' ∷ b'o' ∷ []

abbrev bar : Str
bar = b'b' ∷ b'a' ∷ b'r' ∷ []

-- A cache of one slot that has the value 7 under `foo`.
abbrev cache : Cache ℕ
cache = record {
  links = one;
  key = λ a. foo;
  value = λ a. some 7;
  index = Table.store Table.init foo 0;
}

reuse_slot-Linked_example : Linked (reuse_slot three 1) (1 ∷ 2 ∷ 0 ∷ [])
reuse_slot-Linked_example = reuse_slot-Linked three (2 ∷ []) 1 (0 ∷ []) three-Linked

use_slot-evicts_example :
    (l : Links) × (use_slot three ≡ some (true, 0, l)) × Linked l (0 ∷ 2 ∷ 1 ∷ [])
use_slot-evicts_example =
    use_slot-evicts three 2 (1 ∷ []) 0 three-Linked refl (omega arith) (omega arith)

empty-Emptied_example :
    (c' : Cache ℕ) × (empty 1 cache ≡ some c')
    × ((b : ℕ) → c'.value b ≡ (if among b (0 ∷ []) then none else cache.value b))
empty-Emptied_example = empty-Emptied 1 (0 ∷ []) cache one-Linked (omega arith)

cache-lacks : Table.fetch (cache.index ∷ []) bar ≡ none
unfolding program
cache-lacks = refl

cache-knows : Table.fetch (cache.index ∷ []) foo ≡ some 0
unfolding program
cache-knows = refl

store-empty_hangs_example :
    (c' : Cache ℕ) × (store cache bar (some 8) ≡ some c') × ((f : ℕ) → empty f c' ≡ none)
store-empty_hangs_example =
    store-empty_hangs cache 0 bar (some 8) one-Linked refl (omega arith) (omega arith) cache-lacks

-- The cache without an entry, before its first store.
abbrev blank : Cache ℕ
blank = record cache {
  links = record one { fresh = none; stale = none; used = 0 };
  index = Table.init;
}

abbrev first_use : Bool × ℕ × Links
unfolding use_slot freshen_slot
first_use = (false, 0, freshen_slot (record blank.links { used = 1 }) 0)

blank-lacks : Table.fetch (blank.index ∷ []) foo ≡ none
unfolding program
blank-lacks = refl

blank-uses : use_slot blank.links ≡ some first_use
unfolding use_slot first_use
blank-uses = refl

fetch-store_new_example :
    (c' : Cache ℕ) × (store blank foo (some 8) ≡ some c') × ((fetch c' foo).0 ≡ some 8)
fetch-store_new_example =
    fetch-store_new blank foo (some 8) first_use (init-IsValid ℕ) blank-lacks blank-uses
