-- ===== src/Pools/Tests.antt =====
-- Runs of the pool, and its theorem at a pool.
use hemp.Base.{◌≡◌, refl, inr, [], ◌∷◌, arith}
use hemp.Pools.{Pool, grow, take, take_next, IsValid, Taken, Fresh, take-Fresh}

-- Two records of eight bytes, both taken.
abbrev full : Pool
full = record { slab = 16; older = []; next = 16; size = 8; capacity = 2; used = 2 }

taken_full :
    take full
    ≡ ((1, 0), record { slab = 16; older = 16 ∷ []; next = 8; size = 8; capacity = 4; used = 3 })
unfolding take take_next grow
taken_full = refl

full-IsValid : IsValid full
full-IsValid = record { free = 0; all = refl; some_capacity = omega arith; room = omega arith }

take-Fresh_example : Fresh (0, 8) (take full).0 (take full).1
unfolding Taken
take-Fresh_example =
    take-Fresh full (0, 8) full-IsValid (omega arith) (omega arith) (inr (refl, omega arith))
