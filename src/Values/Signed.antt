-- ===== src/Values/Signed.antt =====
-- The 32-bit integers of the values, as their bits and as signed numbers, and the machine's arithmetic
-- on them: `none` where C leaves the result undefined.
use hemp.Base.{ℕ, ◌+◌, ◌*◌, ◌-◌, ◌/◌, ◌%◌, ◌^◌, Option, some, none, ltb, ◌==◌, if◌then◌else◌}

pub data ℤ : Type 0 where
  pos : ℕ → ℤ
  negsuc : ℕ → ℤ

-- The number that 32 bits stand for.
unfoldable pub signed : ℕ → ℤ
signed b = if ltb b (2 ^ 31) then pos b else negsuc (2 ^ 32 - 1 - b)

-- The bits of a number, where 32 hold it.
unfoldable pub bits : ℤ → Option ℕ
bits (pos n) = if ltb n (2 ^ 31) then some n else none
bits (negsuc n) = if ltb n (2 ^ 31) then some (2 ^ 32 - 1 - n) else none

unfoldable pub -ℤ : ℤ → ℤ
-ℤ (pos n) = if n == 0 then pos 0 else negsuc (n - 1)
-ℤ (negsuc n) = pos (n + 1)

infixl 60 ◌+ℤ◌
infixl 70 ◌*ℤ◌
unfoldable pub ◌+ℤ◌ : ℤ → ℤ → ℤ
pos a +ℤ pos b = pos (a + b)
pos a +ℤ negsuc b = if ltb b a then pos (a - b - 1) else negsuc (b - a)
negsuc a +ℤ pos b = if ltb a b then pos (b - a - 1) else negsuc (a - b)
negsuc a +ℤ negsuc b = negsuc (a + b + 1)

unfoldable pub ◌*ℤ◌ : ℤ → ℤ → ℤ
unfolding -ℤ
pos a *ℤ pos b = pos (a * b)
pos a *ℤ negsuc b = -ℤ (pos (a * (b + 1)))
negsuc a *ℤ pos b = -ℤ (pos ((a + 1) * b))
negsuc a *ℤ negsuc b = pos ((a + 1) * (b + 1))

-- Division towards zero, by a number that is not zero, and its remainder.
unfoldable pub quot : ℤ → ℤ → ℤ
unfolding -ℤ
quot (pos a) (pos b) = pos (a / b)
quot (pos a) (negsuc b) = -ℤ (pos (a / (b + 1)))
quot (negsuc a) (pos b) = -ℤ (pos ((a + 1) / b))
quot (negsuc a) (negsuc b) = pos ((a + 1) / (b + 1))

unfoldable pub rem : ℤ → ℤ → ℤ
unfolding -ℤ
rem (pos a) (pos b) = pos (a % b)
rem (pos a) (negsuc b) = pos (a % (b + 1))
rem (negsuc a) (pos b) = -ℤ (pos ((a + 1) % b))
rem (negsuc a) (negsuc b) = -ℤ (pos ((a + 1) % (b + 1)))

-- `+`, `-`, `*`, `/` and `%` on `HempInt`
unfoldable pub add_int : ℕ → ℕ → Option ℕ
unfolding signed bits ◌+ℤ◌
add_int x y = bits (signed x +ℤ signed y)

unfoldable pub negate_int : ℕ → Option ℕ
unfolding signed bits -ℤ
negate_int x = bits (-ℤ (signed x))

unfoldable pub subtract_int : ℕ → ℕ → Option ℕ
unfolding signed bits -ℤ ◌+ℤ◌
subtract_int x y = bits (signed x +ℤ -ℤ (signed y))

unfoldable pub multiply_int : ℕ → ℕ → Option ℕ
unfolding signed bits ◌*ℤ◌
multiply_int x y = bits (signed x *ℤ signed y)

unfoldable pub divide_int : ℕ → ℕ → Option ℕ
unfolding signed bits quot
divide_int x y = if y == 0 then none else bits (quot (signed x) (signed y))

-- The remainder of a division whose quotient is undefined is undefined.
unfoldable pub modulus_int : ℕ → ℕ → Option ℕ
unfolding signed bits quot rem
modulus_int x y = if y == 0 then none else elim (bits (quot (signed x) (signed y))) [
  | some _ ↦ bits (rem (signed x) (signed y))
  | none ↦ none
]
