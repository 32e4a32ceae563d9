-- ===== src/Values/Operators.antt =====
-- The number operators on operands.
use hemp.Base.{
  ℕ, ◌+◌, ◌-◌, ◌%◌, ◌^◌, ◌<◌, ◌≡◌, refl, ap, Bool, true, false, ◌&&◌, not, Option, some, none,
  if◌then◌else◌, arith,
}
use hemp.Values.Word.{
  int_val, val_int, is_integer, tag_make, is_before, is_after, is_equal, ident_is, ident_make,
}
use hemp.Values.Logic.{
  bool_val, before_ident, equal_ident, after_ident, before_value, not_before_value, after_value,
  not_after_value, equal_value, not_equal_value,
}
use hemp.Values.Signed.{divide_int, modulus_int}
use hemp.Values.Number.{
  Doubles, Operand, boxed, cast_num, plus_value, minus_value, divint_value, modulus_value,
  compare_value,
}
use hemp.Values.Arithmetic.{
  sum_overflows, add_int-sum, difference_overflows, subtract_int-difference, Division,
  divide_int-Division, divide_int_bound, modulus_int_bound,
}

-- The integer in a result.
unfoldable pub unboxed : Option ℕ → Option ℕ
unfolding val_int
unboxed (some v) = some (val_int v)
unboxed none = none

val_int_bound : (v : ℕ) → val_int v < 2 ^ 32
unfolding val_int
val_int_bound v = omega arith

unboxed-boxed : (o : Option ℕ) → ((i : ℕ) → o ≡ some i → i < 2 ^ 32) → unboxed (boxed o) ≡ o
unfolding unboxed boxed val_int int_val tag_make
unboxed-boxed (some i) h = ap some (ground (arith, h i refl))
unboxed-boxed none h = refl

guarded_bound :
    (b : Bool) (z : ℕ) (i : ℕ) → (if b then none else some (z % 2 ^ 32)) ≡ some i → i < 2 ^ 32
guarded_bound b z i h = ground arith

unboxed_sum :
    (o : Option ℕ) (b : Bool) (z : ℕ)
    → o ≡ (if b then none else some (z % 2 ^ 32))
    → unboxed (boxed o) ≡ (if b then none else some (z % 2 ^ 32))
unboxed_sum o b z e = rw e (unboxed-boxed _ (guarded_bound b z))

comparisons :
    (b a : Bool)
    → (let c = if b then before_ident else if a then after_ident else equal_ident in
        (before_value c ≡ bool_val b)
        × (after_value c ≡ bool_val (not b && a))
        × (equal_value c ≡ bool_val (not b && not a))
        × (not_before_value c ≡ bool_val (not b))
        × (not_after_value c ≡ bool_val (not (not b && a)))
        × (not_equal_value c ≡ bool_val (not (not b && not a))))
unfolding before_value after_value equal_value not_before_value not_after_value not_equal_value
    is_before is_after is_equal ident_is ident_make bool_val before_ident equal_ident after_ident
comparisons true true = (refl, refl, refl, refl, refl, refl)
comparisons true false = (refl, refl, refl, refl, refl, refl)
comparisons false true = (refl, refl, refl, refl, refl, refl)
comparisons false false = (refl, refl, refl, refl, refl, refl)

module _ (d : Doubles) where
  -- Where the number of the left operand is an integer, plus and minus give the sum and the
  -- difference of its 32 bits and those of the right operand's integer, modulo 2 ^ 32; they are
  -- undefined exactly where that has the sign of neither operand, or the sign of the subtrahend where
  -- the minuend has not.
  pub plus_value-words :
      (lhs rhs : Operand)
      → is_integer lhs.number ≡ true
      → (let x = val_int lhs.number in
          let y = val_int rhs.integer in
          (unboxed (plus_value d lhs rhs)
            ≡ (if sum_overflows x y then none else some ((x + y) % 2 ^ 32)))
          × (unboxed (minus_value d lhs rhs)
              ≡ (if difference_overflows x y then none else some ((x + 2 ^ 32 - y) % 2 ^ 32))))
  unfolding plus_value minus_value
  plus_value-words lhs rhs h =
      let hx = val_int_bound lhs.number in
      let hy = val_int_bound rhs.integer in
      rw h (
        unboxed_sum _ _ _ (add_int-sum _ _ hx hy),
        unboxed_sum _ _ _ (subtract_int-difference _ _ hx hy),
      )

  -- The comparison operators at what the compare method makes of two operands whose numbers are `l`
  -- and `r`: before is that `l` is below `r`, after that `r` is below `l` and not `l` below `r`, equal
  -- that neither is below the other, and each of the other three is the negation of one of these.
  pub compare_value-below :
      (lhs rhs : Operand)
      → (let l = cast_num d lhs.number in
          let r = cast_num d rhs.number in
          let c = compare_value d lhs rhs in
          (before_value c ≡ bool_val (d.below l r))
          × (after_value c ≡ bool_val (not (d.below l r) && d.below r l))
          × (equal_value c ≡ bool_val (not (d.below l r) && not (d.below r l)))
          × (not_before_value c ≡ bool_val (not (d.below l r)))
          × (not_after_value c ≡ bool_val (not (not (d.below l r) && d.below r l)))
          × (not_equal_value c ≡ bool_val (not (not (d.below l r) && not (d.below r l)))))
  unfolding compare_value
  compare_value-below lhs rhs = comparisons _ _

unboxed-Division :
    (x y : ℕ)
    → x < 2 ^ 32
    → y < 2 ^ 32
    → Division x y (unboxed (boxed (divide_int x y))) (unboxed (boxed (modulus_int x y)))
unboxed-Division x y hx hy =
    rw
      (
        unboxed-boxed (divide_int x y) (divide_int_bound x y),
        unboxed-boxed (modulus_int x y) (modulus_int_bound x y),
      )
      (divide_int-Division x y hx hy)

-- On all operands the integer division and modulus are both undefined where the divisor is zero, or the
-- dividend the least integer and the divisor minus one. In all other cases both are defined, the
-- quotient by the divisor plus the remainder is the dividend, and the remainder is nearer to zero than
-- the divisor.
pub divint_value-Division :
    (lhs rhs : Operand)
    → Division
        (val_int lhs.integer)
        (val_int rhs.integer)
        (unboxed (divint_value lhs rhs))
        (unboxed (modulus_value lhs rhs))
unfolding divint_value modulus_value
divint_value-Division lhs rhs =
    unboxed-Division _ _ (val_int_bound lhs.integer) (val_int_bound rhs.integer)
