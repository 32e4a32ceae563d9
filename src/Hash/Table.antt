-- ===== src/Hash/Table.antt =====
-- The hash table of library/type/hash.c and include/hemp/type/hash.h: a vector of columns, each a
-- chain of slots (include/hemp/slot.h).
--
-- A column is the list of its slots from the head on. A slot's `parent`, which nothing reads, is
-- left out. Memory is taken to be there: `hemp_mem_fail` ends the program otherwise. The width is
-- never 0 (`IsValid`), so no division faults. `size` could wrap only past 2 ^ 64 slots.
use hemp.Base.{
  ℕ, ◌+◌, ◌/◌, ◌%◌, ◌≡◌, Bool, ◌||◌, Option, none, some, List, [], ◌∷◌, ltb, ◌==◌, if◌then◌else◌,
  length, set, get_or, take, replicate,
}
use hemp.Chars.{Str}
use hemp.Hash.Match.{key_match}
use hemp.Hash.Jenkins.{jenkins32, jenkins32-take}

-- `hemp_hash_function`: which function it is, the header decides.
pub record HashFunction : Type 0 where
  pub apply : Str → ℕ → ℕ
  pub apply-take : (k : Str) (n : ℕ) → apply (take n k) n ≡ apply k n

-- The header's choice.
abbrev pub jenkins : HashFunction
jenkins = record { apply = jenkins32; apply-take = jenkins32-take }

pub record Slot {ℓ} (V : Type ℓ) : Type ℓ where
  pub index : ℕ
  pub name : Str
  pub value : V

-- `struct hemp_hash`, without the link to its parent.
pub record Table {ℓ} (V : Type ℓ) : Type ℓ where
  pub width : ℕ
  pub size : ℕ
  pub slots : List (List (Slot V))

-- `hemp_primes`
abbrev pub primes : List ℕ
primes =
    (8 + 3)
    ∷ (16 + 3)
    ∷ (32 + 5)
    ∷ (64 + 3)
    ∷ (128 + 3)
    ∷ (256 + 27)
    ∷ (512 + 9)
    ∷ (1024 + 9)
    ∷ (2048 + 5)
    ∷ (4096 + 3)
    ∷ (8192 + 27)
    ∷ (16384 + 43)
    ∷ (32768 + 3)
    ∷ (65536 + 45)
    ∷ (131072 + 29)
    ∷ (262144 + 3)
    ∷ (524288 + 21)
    ∷ (1048576 + 7)
    ∷ (2097152 + 17)
    ∷ (4194304 + 15)
    ∷ (8388608 + 9)
    ∷ (16777216 + 43)
    ∷ (33554432 + 35)
    ∷ (67108864 + 15)
    ∷ (134217728 + 29)
    ∷ (268435456 + 3)
    ∷ (536870912 + 11)
    ∷ (1073741824 + 85)
    ∷ []

-- The loop of `hemp_hash_wider`: the first entry above `n`, or else the last one.
unfoldable pub first_above : ℕ → List ℕ → ℕ → ℕ
first_above n [] last = last
first_above n (p ∷ ps) last = if ltb n p then p else first_above n ps last

unfoldable pub wider : ℕ → ℕ
unfolding first_above
wider n = first_above n primes (get_or primes 27 0)

-- `HEMP_HASH_DENSITY`
abbrev pub density : ℕ
density = 5

module _ {ℓ} {V : Type ℓ} where
  -- `hemp_hash_init`
  unfoldable pub init : Table V
  init = record { width = wider 0; size = 0; slots = replicate (wider 0) [] }

  -- The body of the loop of `hemp_hash_grow`: a slot goes to the head of its new column.
  unfoldable pub relink : ℕ → Slot V → List (List (Slot V)) → List (List (Slot V))
  relink wide s slots = let column = s.index % wide in set slots column (s ∷ get_or slots column [])

  unfoldable pub move_column : ℕ → List (Slot V) → List (List (Slot V)) → List (List (Slot V))
  unfolding relink
  move_column wide [] slots = slots
  move_column wide (s ∷ c) slots = move_column wide c (relink wide s slots)

  unfoldable pub move_columns :
      ℕ → List (List (Slot V)) → List (List (Slot V)) → List (List (Slot V))
  move_columns wide [] slots = slots
  move_columns wide (c ∷ cs) slots = move_columns wide cs (move_column wide c slots)

  unfoldable pub grow : Table V → Table V
  unfolding move_columns move_column
  grow t =
      let wide = wider t.width in
      if t.width == wide
      then t
      else record t { width = wide; slots = move_columns wide t.slots (replicate wide []) }

  -- The test that ends each walk down a column.
  unfoldable pub stops : ℕ → Str → ℕ → Slot V → Bool
  unfolding key_match
  stops index name n s = index == s.index || key_match s.name name n

  -- The slot at which a walk ends.
  unfoldable pub seek : ℕ → Str → ℕ → List (Slot V) → Option (Slot V)
  unfolding stops
  seek index name n [] = none
  seek index name n (s ∷ c) = if stops index name n s then some s else seek index name n c

  -- `slot->value = value` there
  unfoldable pub assign : ℕ → Str → ℕ → V → List (Slot V) → List (Slot V)
  unfolding stops
  assign index name n v [] = []
  assign index name n v (s ∷ c) =
      if stops index name n s then record s { value = v } ∷ c else s ∷ assign index name n v c

  -- The column without that slot: `prev->next`, or the head of the column, passes it by.
  unfoldable pub unlink : ℕ → Str → ℕ → List (Slot V) → List (Slot V)
  unfolding stops
  unlink index name n [] = []
  unlink index name n (s ∷ c) = if stops index name n s then c else s ∷ unlink index name n c

  unfoldable pub widen : Table V → Table V
  unfolding grow
  widen t = if ltb density (t.size / t.width) then grow t else t

  -- The columns of `t`, with that of `index` replaced.
  abbrev pub column : Table V → ℕ → List (Slot V)
  column t index = get_or t.slots (index % t.width) []

  abbrev pub with_column : Table V → ℕ → List (Slot V) → ℕ → Table V
  with_column t index c size = record {
    width = t.width;
    size = size;
    slots = set t.slots (index % t.width) c;
  }

module _ {ℓ} {V : Type ℓ} ⦃hash : HashFunction⦄ where
  -- The part of `hemp_hash_store_keylen` behind the test of the density.
  unfoldable pub store_into : Table V → Str → V → ℕ → Table V
  unfolding seek assign
  store_into t name v n =
      let index = hash.apply name n in
      let c = column t index in
      elim (seek index name n c) [
        | some s ↦ with_column t index (assign index name n v c) t.size
        | none ↦
            with_column t index (record { index = index; name = name; value = v } ∷ c) (t.size + 1)
      ]

  unfoldable pub store_keylen : Table V → Str → V → ℕ → Table V
  unfolding store_into widen
  store_keylen t name v n = store_into (widen t) name v n

  -- `hemp_hash_store`: the length is that of the whole name.
  unfoldable pub store : Table V → Str → V → Table V
  unfolding store_keylen
  store t name v = store_keylen t name v (length name)

  -- `hemp_hash_fetch_keylen` over a table and its ancestors, from the nearest on. The result
  -- `none` is `HempMissing`.
  unfoldable pub fetch_keylen : List (Table V) → Str → ℕ → Option V
  unfolding seek
  fetch_keylen [] name n = none
  fetch_keylen (t ∷ parents) name n =
      let index = hash.apply name n in
      let rest = fetch_keylen parents name n in
      elim (seek index name n (column t index)) [ some s ↦ some s.value | none ↦ rest ]

  unfoldable pub fetch : List (Table V) → Str → Option V
  unfolding fetch_keylen
  fetch ts name = fetch_keylen ts name (length name)

  -- `hemp_hash_delete`; `size` is left as it is.
  unfoldable pub delete : Table V → Str → Option V × Table V
  unfolding seek unlink
  delete t name =
      let n = length name in
      let index = hash.apply name n in
      let c = column t index in
      elim (seek index name n c) [
        | some s ↦ (some s.value, with_column t index (unlink index name n c) t.size)
        | none ↦ (none, t)
      ]

  -- `hemp_type_hash_pairs`: every slot is stored in another table.
  unfoldable pub pairs_column : List (Slot V) → Table V → Table V
  unfolding store
  pairs_column [] t = t
  pairs_column (s ∷ c) t = pairs_column c (store t s.name s.value)

  unfoldable pub pairs_columns : List (List (Slot V)) → Table V → Table V
  unfolding pairs_column
  pairs_columns [] t = t
  pairs_columns (c ∷ cs) t = pairs_columns cs (pairs_column c t)

  unfoldable pub pairs : Table V → Table V → Table V
  unfolding pairs_columns
  pairs t into = pairs_columns t.slots into

module _ {ℓ κ} {V : Type ℓ} {S : Type κ} where
  -- One column of `hemp_hash_each`: a callback that answers false ends this column alone.
  unfoldable pub each_column : (ℕ → Slot V → S → Bool × S) → List (Slot V) → ℕ → S → ℕ × S
  each_column f [] n s = (n, s)
  each_column f (x ∷ c) n s =
      let (more, s') = f n x s in
      let rest = each_column f c (n + 1) s' in if more then rest else (n + 1, s')

  unfoldable pub each_columns : (ℕ → Slot V → S → Bool × S) → List (List (Slot V)) → ℕ → S → ℕ × S
  unfolding each_column
  each_columns f [] n s = (n, s)
  each_columns f (c ∷ cs) n s = let (n', s') = each_column f c n s in each_columns f cs n' s'

  unfoldable pub each : (ℕ → Slot V → S → Bool × S) → Table V → S → S
  unfolding each_columns
  each f t s = (each_columns f t.slots 0 s).1
