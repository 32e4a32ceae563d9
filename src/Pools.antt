-- ===== src/Pools.antt =====
-- The pool of records of library/pool.c and the slabs of library/slab.c that it takes them from.
--
-- A slab is the number of its bytes; those of a pool are a list, the newest first. An address is the
-- number of its slab, from the oldest on, and the place in it.
use hemp.Base.{
  ℕ, zero, suc, ◌+◌, ◌*◌, ◌%◌, ◌^◌, ◌≤◌, ◌<◌, ◌≡◌, ◌⊎◌, inl, inr, refl, true, false, List, [], ◌∷◌,
  length, ◌==◌, if◌then◌else◌, arith, Bool-cases,
}
mod Tests

pub record Pool : Type 0 where
  pub slab : ℕ
  pub older : List ℕ
  pub next : ℕ
  pub size : ℕ
  pub capacity : ℕ
  pub used : ℕ

-- `hemp_pool_init`; the slab is `hemp_slab_new`.
unfoldable pub init : ℕ → ℕ → Pool
init size capacity = record {
  slab = size * capacity % 2 ^ 64;
  older = [];
  next = 0;
  size = size;
  capacity = capacity;
  used = 0;
}

-- `hemp_pool_grow`
unfoldable pub grow : Pool → Pool
grow pool = record pool {
  slab = pool.size * pool.capacity % 2 ^ 64;
  older = pool.slab ∷ pool.older;
  next = 0;
  capacity = pool.capacity * 2 % 2 ^ 64;
}

take_next : Pool → (ℕ × ℕ) × Pool
take_next pool = (
  (length pool.older, pool.next),
  record pool { next = pool.next + pool.size; used = pool.used + 1 },
)

-- `hemp_pool_take`: the address of the record, and the pool.
unfoldable pub take : Pool → (ℕ × ℕ) × Pool
unfolding grow take_next
take pool = take_next (if pool.used == pool.capacity then grow pool else pool)

-- The newest slab has room for the records that the pool may still hand out.
pub record IsValid (pool : Pool) : Type 0 where
  pub free : ℕ
  pub all : pool.capacity ≡ pool.used + free
  pub some_capacity : 1 ≤ pool.capacity
  pub room : pool.next + free * pool.size ≤ pool.slab

-- The record at an address lies before what the pool hands out next.
unfoldable pub Taken : Pool → ℕ × ℕ → Type 0
Taken pool (s, o) =
    (s < length pool.older) ⊎ ((s ≡ length pool.older) × (o + pool.size ≤ pool.next))

-- A record at the first address ends before the second: in an older slab, or earlier in the same.
abbrev pub Before : ℕ → ℕ × ℕ → ℕ × ℕ → Type 0
Before size (s, o) (s', o') = (s < s') ⊎ ((s ≡ s') × (o + size ≤ o'))

pub init-IsValid :
    (size capacity : ℕ) → 1 ≤ capacity → size * capacity < 2 ^ 64 → IsValid (init size capacity)
unfolding init
init-IsValid size capacity h small = record {
  free = capacity;
  all = omega arith;
  some_capacity = h;
  room = ground arith;
}

grow-IsValid :
    (pool : Pool)
    → IsValid pool
    → pool.used ≡ pool.capacity
    → pool.size * pool.capacity < 2 ^ 64
    → pool.capacity * 2 < 2 ^ 64
    → IsValid (grow pool)
unfolding grow
grow-IsValid pool h e small big =
    let c = h.some_capacity in
    record {
      free = pool.capacity;
      all = omega arith;
      some_capacity = omega arith;
      room = ground arith;
    }

grow-Taken : (pool : Pool) (a : ℕ × ℕ) → IsValid pool → Taken pool a → Taken (grow pool) a
unfolding grow Taken
grow-Taken pool (s, o) h t = ground arith

-- What a record that is taken from a pool is to the pool and to a record taken before.
pub record Fresh (a : ℕ × ℕ) (address : ℕ × ℕ) (pool : Pool) : Type 0 where
  pub valid : IsValid pool
  pub fits : address.1 + pool.size ≤ pool.slab
  pub behind : Before pool.size a address
  pub kept : Taken pool a
  pub taken : Taken pool address

take_next-Fresh :
    (pool : Pool) (a : ℕ × ℕ) (f : ℕ)
    → pool.capacity ≡ pool.used + suc f
    → pool.next + suc f * pool.size ≤ pool.slab
    → Taken pool a
    → Fresh a (take_next pool).0 (take_next pool).1
unfolding take_next Taken
take_next-Fresh pool (s, o) f all room t = record {
  valid = record { free = f; all = omega arith; some_capacity = omega arith; room = ground arith };
  fits = ground arith;
  behind = t;
  kept = ground arith;
  taken = inr (refl, omega arith);
}

next-Fresh :
    (pool : Pool) (a : ℕ × ℕ) (f : ℕ)
    → IsValid pool
    → pool.capacity ≡ pool.used + f
    → 1 ≤ f
    → pool.next + f * pool.size ≤ pool.slab
    → Taken pool a
    → Fresh a (take_next pool).0 (take_next pool).1
next-Fresh pool a zero h all some room t = absurd (omega arith)
next-Fresh pool a (suc f) h all some room t = take_next-Fresh pool a f all room t

grown_free :
    (pool : Pool)
    → (g : IsValid (grow pool)) → IsValid pool
    → pool.used ≡ pool.capacity
    → pool.capacity * 2 < 2 ^ 64
    → 1 ≤ g.free
unfolding grow
grown_free pool g h e big = let a = g.all in let c = h.some_capacity in omega arith

-- A record that is taken from a valid pool, whose sizes after a growth are below 2 ^ 64, lies in the
-- newest slab as a whole, behind every record taken before, and the pool stays valid and keeps count
-- of both.
pub take-Fresh :
    (pool : Pool) (a : ℕ × ℕ)
    → IsValid pool
    → pool.size * pool.capacity < 2 ^ 64
    → pool.capacity * 2 < 2 ^ 64
    → Taken pool a
    → Fresh a (take pool).0 (take pool).1
unfolding take
take-Fresh pool a h small big t = elim (Bool-cases (pool.used == pool.capacity)) [
  | inl e ↦
      let g = grow-IsValid pool h (ground arith) small big in
      rw e (
        next-Fresh (grow pool) a g.free g g.all (grown_free pool g h (ground arith) big) g.room
          (grow-Taken pool a h t))
  | inr e ↦ let c = h.all in rw e (next-Fresh pool a h.free h h.all (ground arith) h.room t)
]
