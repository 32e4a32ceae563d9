-- ===== src/Values/Logic.antt =====
-- The operators on truth values and on comparisons. Each takes the values that its operands have
-- come to; both operands of `and` and `or` are evaluated before.
use hemp.Base.{ℕ, Bool, ◌&&◌, ◌||◌, if◌then◌else◌}
use hemp.Values.Word.{
  ident_make, ident_true, ident_false, ident_before, ident_equal, ident_after, is_true, is_before,
  is_after, is_equal,
}

-- `HempTrue` and `HempFalse`
unfoldable pub true_value : ℕ
unfolding ident_make
true_value = ident_make ident_true

unfoldable pub false_value : ℕ
unfolding ident_make
false_value = ident_make ident_false

-- `HempBefore`, `HempEqual` and `HempAfter`
unfoldable pub before_ident : ℕ
unfolding ident_make
before_ident = ident_make ident_before

unfoldable pub equal_ident : ℕ
unfolding ident_make
equal_ident = ident_make ident_equal

unfoldable pub after_ident : ℕ
unfolding ident_make
after_ident = ident_make ident_after

-- `hemp_bool_val`
unfoldable pub bool_val : Bool → ℕ
unfolding true_value false_value
bool_val b = if b then true_value else false_value

-- `hemp_element_boolean_not_value`, `_and_value` and `_or_value`
unfoldable pub not_value : ℕ → ℕ
unfolding is_true true_value false_value
not_value result = if is_true result then false_value else true_value

unfoldable pub and_value : ℕ → ℕ → ℕ
unfolding is_true true_value false_value
and_value lval rval = if is_true lval && is_true rval then true_value else false_value

unfoldable pub or_value : ℕ → ℕ → ℕ
unfolding is_true true_value false_value
or_value lval rval = if is_true lval || is_true rval then true_value else false_value

-- `hemp_element_compare_equal_value` and those that follow it
unfoldable pub equal_value : ℕ → ℕ
unfolding is_equal true_value false_value
equal_value result = if is_equal result then true_value else false_value

unfoldable pub not_equal_value : ℕ → ℕ
unfolding is_equal true_value false_value
not_equal_value result = if is_equal result then false_value else true_value

unfoldable pub before_value : ℕ → ℕ
unfolding is_before true_value false_value
before_value result = if is_before result then true_value else false_value

unfoldable pub not_before_value : ℕ → ℕ
unfolding is_before true_value false_value
not_before_value result = if is_before result then false_value else true_value

unfoldable pub after_value : ℕ → ℕ
unfolding is_after true_value false_value
after_value result = if is_after result then true_value else false_value

unfoldable pub not_after_value : ℕ → ℕ
unfolding is_after true_value false_value
not_after_value result = if is_after result then false_value else true_value
