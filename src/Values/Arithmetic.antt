-- ===== src/Values/Arithmetic.antt =====
-- The integer arithmetic of the number operators wraps nowhere: where it has a result this is the
-- result of the numbers.
use Prim.Native.Nat.{zero, suc}
use hemp.Base.{
  ℕ, ◌+◌, ◌*◌, ◌-◌, ◌/◌, ◌%◌, ◌^◌, ◌≤◌, ◌<◌, ◌≡◌, inl, inr, Bool-cases, refl, ◌∙◌, ap, Bool, true,
  false, ◌&&◌, ◌||◌, Option, some, none, ltb, leb, ◌==◌, if◌then◌else◌, arith,
}
use hemp.Values.Signed.{
  ℤ, pos, negsuc, signed, bits, -ℤ, ◌+ℤ◌, ◌*ℤ◌, quot, rem, add_int, subtract_int, divide_int,
  modulus_int,
}

-- The sum of two words has the sign of neither operand.
unfoldable pub sum_overflows : ℕ → ℕ → Bool
sum_overflows x y =
    let z = (x + y) % 2 ^ 32 in
    if ltb x (2 ^ 31) then ltb y (2 ^ 31) && leb (2 ^ 31) z else leb (2 ^ 31) y && ltb z (2 ^ 31)

-- `+` is the sum of the words, and undefined exactly where the sum has the sign of neither.
pub add_int-sum :
    (x y : ℕ)
    → x < 2 ^ 32
    → y < 2 ^ 32
    → add_int x y ≡ (if sum_overflows x y then none else some ((x + y) % 2 ^ 32))
unfolding add_int signed bits ◌+ℤ◌ sum_overflows
add_int-sum x y hx hy = ground arith

-- The difference of two words has the sign of the second, and the first has not.
unfoldable pub difference_overflows : ℕ → ℕ → Bool
difference_overflows x y =
    let z = (x + 2 ^ 32 - y) % 2 ^ 32 in
    if ltb x (2 ^ 31) then leb (2 ^ 31) y && leb (2 ^ 31) z else ltb y (2 ^ 31) && ltb z (2 ^ 31)

pub subtract_int-difference :
    (x y : ℕ)
    → x < 2 ^ 32
    → y < 2 ^ 32
    → subtract_int x y
      ≡ (if difference_overflows x y then none else some ((x + 2 ^ 32 - y) % 2 ^ 32))
unfolding subtract_int signed bits -ℤ ◌+ℤ◌ difference_overflows
subtract_int-difference x y hx hy = ground arith

signed-bits : (a : ℤ) (z : ℕ) → bits a ≡ some z → signed z ≡ a
unfolding signed bits
signed-bits (pos n) z h = ground arith
signed-bits (negsuc n) z h = ground arith

divided : (a b : ℕ) → 0 < b → a / b * b + a % b ≡ a
divided a b h = omega arith

quot-negsuc : (q b r : ℕ) → -ℤ (pos q) *ℤ negsuc b +ℤ pos r ≡ pos (q * (b + 1) + r)
unfolding -ℤ ◌+ℤ◌ ◌*ℤ◌
quot-negsuc zero b r = ground arith
quot-negsuc (suc q) b r = ground arith

negsuc-pos : (q b r : ℕ) → -ℤ (pos q) *ℤ pos b +ℤ -ℤ (pos r) ≡ -ℤ (pos (q * b + r))
unfolding -ℤ ◌+ℤ◌ ◌*ℤ◌
negsuc-pos zero b r = ground arith
negsuc-pos (suc q) b r = ground arith

negsuc-negsuc : (q b r : ℕ) → pos q *ℤ negsuc b +ℤ -ℤ (pos r) ≡ -ℤ (pos (q * (b + 1) + r))
unfolding -ℤ ◌+ℤ◌ ◌*ℤ◌
negsuc-negsuc zero b r = ground arith
negsuc-negsuc (suc q) b r = ground arith

negated_suc : (a : ℕ) → -ℤ (pos (a + 1)) ≡ negsuc a
unfolding -ℤ
negated_suc a = ground arith

quot-rem : (a b : ℤ) → ¬ (b ≡ pos 0) → quot a b *ℤ b +ℤ rem a b ≡ a
unfolding quot rem ◌+ℤ◌ ◌*ℤ◌
quot-rem (pos a) (pos b) h = ground arith
quot-rem (pos a) (negsuc b) h =
    quot-negsuc (a / (b + 1)) b (a % (b + 1)) ∙ ap pos (divided a (b + 1) (omega arith))
quot-rem (negsuc a) (pos b) h =
    negsuc-pos ((a + 1) / b) b ((a + 1) % b)
    ∙ ap (λ n. -ℤ (pos n)) (divided (a + 1) b (ground arith))
    ∙ negated_suc a
quot-rem (negsuc a) (negsuc b) h =
    negsuc-negsuc ((a + 1) / (b + 1)) b ((a + 1) % (b + 1))
    ∙ ap (λ n. -ℤ (pos n)) (divided (a + 1) (b + 1) (omega arith))
    ∙ negated_suc a

-- A divisor of zero, or the least integer by minus one.
unfoldable pub quotient_fails : ℕ → ℕ → Bool
quotient_fails x y = y == 0 || ((x == 2 ^ 31) && (y == 2 ^ 32 - 1))

unfoldable pub magnitude : ℤ → ℕ
magnitude (pos n) = n
magnitude (negsuc n) = n + 1

-- What a quotient and a remainder are to their operands: both undefined where the quotient fails,
-- and else words that give back the dividend, the remainder's magnitude below the divisor's.
pub data Division (x y : ℕ) : Option ℕ → Option ℕ → Type 0 where
  undefined : quotient_fails x y ≡ true → Division x y none none
  defined :
      {q r : ℕ}
      → quotient_fails x y ≡ false
      → signed q *ℤ signed y +ℤ signed r ≡ signed x
      → magnitude (signed r) < magnitude (signed y)
      → Division x y (some q) (some r)

word : ℤ → ℕ
word (pos n) = n
word (negsuc n) = 2 ^ 32 - 1 - n

div_le : (a b : ℕ) → a / b ≤ a
div_le a b = omega arith

quot-fits :
    (x y : ℕ)
    → x < 2 ^ 32
    → y < 2 ^ 32
    → quotient_fails x y ≡ false
    → bits (quot (signed x) (signed y)) ≡ some (word (quot (signed x) (signed y)))
unfolding bits quot signed word -ℤ quotient_fails
quot-fits x y hx hy h = ground (arith, div_le x y, div_le x (2 ^ 32 - y), div_le (2 ^ 32 - x) y)

rem-fits :
    (x y : ℕ)
    → x < 2 ^ 32
    → y < 2 ^ 32
    → (y == 0) ≡ false
    → bits (rem (signed x) (signed y)) ≡ some (word (rem (signed x) (signed y)))
unfolding bits rem signed word -ℤ
rem-fits x y hx hy h = ground arith

rem-below : (a b : ℤ) → ¬ (b ≡ pos 0) → magnitude (rem a b) < magnitude b
unfolding rem magnitude -ℤ
rem-below (pos a) (pos b) h = ground arith
rem-below (pos a) (negsuc b) h = ground arith
rem-below (negsuc a) (pos b) h = ground arith
rem-below (negsuc a) (negsuc b) h = ground arith

signed-nonzero : (y : ℕ) → (y == 0) ≡ false → ¬ (signed y ≡ pos 0)
unfolding signed
signed-nonzero y h e = ground arith

nonzero : (x y : ℕ) → quotient_fails x y ≡ false → (y == 0) ≡ false
unfolding quotient_fails
nonzero x y h = ground arith

divided-Division :
    (x y q r : ℕ)
    → quotient_fails x y ≡ false
    → signed q ≡ quot (signed x) (signed y)
    → signed r ≡ rem (signed x) (signed y)
    → Division x y (some q) (some r)
divided-Division x y q r h eq er =
    let n = signed-nonzero y (nonzero x y h) in
    defined h (rw (eq, er) (quot-rem (signed x) (signed y) n))
      (rw er (rem-below (signed x) (signed y) n))

least_by_minus_one :
    (x y : ℕ) → quotient_fails x y ≡ true → (y == 0) ≡ false → (x ≡ 2 ^ 31) × (y ≡ 2 ^ 32 - 1)
unfolding quotient_fails
least_by_minus_one x y h z = ground arith

fails_at_least :
    (divide_int (2 ^ 31) (2 ^ 32 - 1) ≡ none) × (modulus_int (2 ^ 31) (2 ^ 32 - 1) ≡ none)
unfolding divide_int modulus_int bits quot signed
fails_at_least = (refl, refl)

fails_by_zero : (x y : ℕ) → (y == 0) ≡ true → (divide_int x y ≡ none) × (modulus_int x y ≡ none)
unfolding divide_int modulus_int
fails_by_zero x y z = rw z (refl, refl)

failed : (x y : ℕ) → quotient_fails x y ≡ true → (divide_int x y ≡ none) × (modulus_int x y ≡ none)
failed x y h = elim (Bool-cases (y == 0)) [
  | inl z ↦ fails_by_zero x y z
  | inr z ↦ let (ex, ey) = least_by_minus_one x y h z in rw (ex, ey) fails_at_least
]

computed :
    (x y : ℕ)
    → x < 2 ^ 32
    → y < 2 ^ 32
    → quotient_fails x y ≡ false
    → (divide_int x y ≡ some (word (quot (signed x) (signed y))))
      × (modulus_int x y ≡ some (word (rem (signed x) (signed y))))
unfolding divide_int modulus_int
computed x y hx hy h =
    let z = nonzero x y h in rw (z, quot-fits x y hx hy h, rem-fits x y hx hy z) (refl, refl)

-- The quotient and the remainder of two words are undefined for a divisor of zero and for the least
-- integer by minus one; in all other cases both are defined, they give back the dividend, and the
-- remainder is closer to zero than the divisor.
pub divide_int-Division :
    (x y : ℕ) → x < 2 ^ 32 → y < 2 ^ 32 → Division x y (divide_int x y) (modulus_int x y)
divide_int-Division x y hx hy = elim (Bool-cases (quotient_fails x y)) [
  | inl h ↦ let (d, m) = failed x y h in rw (d, m) (undefined h)
  | inr h ↦
      let z = nonzero x y h in
      let (d, m) = computed x y hx hy h in
      rw (d, m)
        (divided-Division x y _ _ h (signed-bits _ _ (quot-fits x y hx hy h))
          (signed-bits _ _ (rem-fits x y hx hy z)))
]

bits_bound : (a : ℤ) (i : ℕ) → bits a ≡ some i → i < 2 ^ 32
unfolding bits
bits_bound (pos n) i h = ground arith
bits_bound (negsuc n) i h = ground arith

pub divide_int_bound : (x y i : ℕ) → divide_int x y ≡ some i → i < 2 ^ 32
unfolding divide_int
divide_int_bound x y i h = ground (arith, bits_bound (quot (signed x) (signed y)) i)

pub modulus_int_bound : (x y i : ℕ) → modulus_int x y ≡ some i → i < 2 ^ 32
unfolding modulus_int
modulus_int_bound x y i h = ground (arith, bits_bound (rem (signed x) (signed y)) i)
