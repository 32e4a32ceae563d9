-- ===== src/Values/Number.antt =====
-- The operators on numbers of library/element/number.c. The arithmetic of doubles is the machine's and
-- that of its library: a parameter, of functions on bit patterns. An operand is the values that its
-- methods `number` and `integer` come to.
use hemp.Base.{ℕ, Bool, Option, some, none, if◌then◌else◌}
use hemp.Values.Word.{int_val, val_int, is_number, is_integer}
use hemp.Values.Logic.{before_ident, equal_ident, after_ident}
use hemp.Values.Signed.{add_int, subtract_int, negate_int, multiply_int, divide_int, modulus_int}

-- The operations on doubles. `to_int` is the conversion to a 32-bit integer, undefined out of range.
pub record Doubles : Type 0 where
  pub of_int : ℕ → ℕ
  pub to_int : ℕ → Option ℕ
  pub negate : ℕ → ℕ
  pub add : ℕ → ℕ → ℕ
  pub subtract : ℕ → ℕ → ℕ
  pub multiply : ℕ → ℕ → ℕ
  pub divide : ℕ → ℕ → ℕ
  pub power : ℕ → ℕ → ℕ
  pub below : ℕ → ℕ → Bool

pub record Operand : Type 0 where
  pub number : ℕ
  pub integer : ℕ

-- `hemp_int_val` of the result of an operation
unfoldable pub boxed : Option ℕ → Option ℕ
unfolding int_val
boxed (some i) = some (int_val i)
boxed none = none

module _ (d : Doubles) where
  -- `HEMP_NUMOP_CAST_NUM`
  unfoldable pub cast_num : ℕ → ℕ
  unfolding is_number val_int
  cast_num v = if is_number v then v else d.of_int (val_int v)

  -- `hemp_element_number_plus_value` of one operand is `number` of it; of two:
  unfoldable pub plus_value : Operand → Operand → Option ℕ
  unfolding is_integer val_int add_int boxed cast_num
  plus_value lhs rhs =
      if is_integer lhs.number
      then boxed (add_int (val_int lhs.number) (val_int rhs.integer))
      else some (d.add lhs.number (cast_num rhs.number))

  -- `hemp_element_number_minus_value`, of one operand and of two
  unfoldable pub negate_value : Operand → Option ℕ
  unfolding is_integer val_int negate_int boxed
  negate_value expr =
      if is_integer expr.number
      then boxed (negate_int (val_int expr.number))
      else some (d.negate expr.number)

  unfoldable pub minus_value : Operand → Operand → Option ℕ
  unfolding is_integer val_int subtract_int boxed cast_num
  minus_value lhs rhs =
      if is_integer lhs.number
      then boxed (subtract_int (val_int lhs.number) (val_int rhs.integer))
      else some (d.subtract lhs.number (cast_num rhs.number))

  unfoldable pub power_value : Operand → Operand → Option ℕ
  unfolding is_integer val_int boxed cast_num
  power_value lhs rhs =
      if is_integer lhs.number
      then boxed (d.to_int (d.power (d.of_int (val_int lhs.number)) (cast_num rhs.number)))
      else some (d.power lhs.number (cast_num rhs.number))

  unfoldable pub multiply_value : Operand → Operand → Option ℕ
  unfolding is_integer val_int multiply_int boxed cast_num
  multiply_value lhs rhs =
      if is_integer lhs.number
      then boxed (multiply_int (val_int lhs.number) (val_int rhs.integer))
      else some (d.multiply lhs.number (cast_num rhs.number))

  unfoldable pub divide_value : Operand → Operand → Option ℕ
  unfolding is_integer val_int divide_int boxed cast_num
  divide_value lhs rhs =
      if is_integer lhs.number
      then boxed (divide_int (val_int lhs.number) (val_int rhs.integer))
      else some (d.divide lhs.number (cast_num rhs.number))

  -- `hemp_element_number_compare_value`
  unfoldable pub compare_value : Operand → Operand → ℕ
  unfolding cast_num
  compare_value lhs rhs =
      let l = cast_num lhs.number in
      let r = cast_num rhs.number in
      if d.below l r then before_ident else if d.below r l then after_ident else equal_ident

-- `hemp_element_number_divint_value` and `hemp_element_number_modulus_value`
unfoldable pub divint_value : Operand → Operand → Option ℕ
unfolding val_int divide_int boxed
divint_value lhs rhs = boxed (divide_int (val_int lhs.integer) (val_int rhs.integer))

unfoldable pub modulus_value : Operand → Operand → Option ℕ
unfolding val_int modulus_int boxed
modulus_value lhs rhs = boxed (modulus_int (val_int lhs.integer) (val_int rhs.integer))
