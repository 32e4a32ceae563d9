-- ===== src/Values/Tests.antt =====
-- Runs of the operators, and the theorems at values.
use hemp.Base.{ℕ, ◌+◌, ◌-◌, ◌%◌, ◌^◌, ◌≡◌, refl, true, false, some, none, if◌then◌else◌, ltb}
use hemp.Values.Word.{
  int_val, val_int, type_id, is_number, is_integer, tag_make, tag_valid, tag_down,
}
use hemp.Values.Logic.{
  true_value, false_value, bool_val, not_value, and_value, or_value, equal_value, not_equal_value,
  before_value, not_before_value, after_value, not_after_value, equal_ident,
}
use hemp.Values.Number.{
  Doubles, Operand, plus_value, minus_value, compare_value, divint_value, modulus_value, cast_num,
}
use hemp.Values.Arithmetic.{sum_overflows, difference_overflows, Division}
use hemp.Values.Operators.{unboxed, plus_value-words, compare_value-below, divint_value-Division}
use hemp.Values.Laws.{not_value-comparisons, logic-bool_val}

-- Doubles of which only the bit patterns of numbers that are not negative are compared.
abbrev patterns : Doubles
patterns = record {
  of_int = λ x. x;
  to_int = λ v. some (v % 2 ^ 32);
  negate = λ v. v;
  add = λ v w. v;
  subtract = λ v w. v;
  multiply = λ v w. v;
  divide = λ v w. v;
  power = λ v w. v;
  below = ltb;
}

-- The operand of an integer, by its bits.
abbrev whole : ℕ → Operand
unfolding int_val tag_make
whole i = record { number = int_val i; integer = int_val i }

plus_value-words_example :
    (unboxed (plus_value patterns (whole 0x7fff_ffff) (whole 1))
      ≡ (if sum_overflows 0x7fff_ffff 1 then none else some ((0x7fff_ffff + 1) % 2 ^ 32)))
    × (unboxed (minus_value patterns (whole 0x7fff_ffff) (whole 1)) ≡ (
        if difference_overflows 0x7fff_ffff 1
        then none
        else some ((0x7fff_ffff + 2 ^ 32 - 1) % 2 ^ 32)))
unfolding is_integer type_id tag_valid tag_down val_int int_val tag_make whole
plus_value-words_example = plus_value-words patterns (whole 0x7fff_ffff) (whole 1) refl

compare_value-below_example :
    (let c = compare_value patterns (whole 2) (whole 3) in
      (before_value c ≡ true_value)
      × (after_value c ≡ false_value)
      × (equal_value c ≡ false_value)
      × (not_before_value c ≡ false_value)
      × (not_after_value c ≡ true_value)
      × (not_equal_value c ≡ true_value))
unfolding cast_num is_number val_int int_val tag_make whole bool_val
compare_value-below_example = compare_value-below patterns (whole 2) (whole 3)

-- -7 by 2.
divint_value-Division_example :
    Division
      (val_int (int_val 0xffff_fff9))
      (val_int (int_val 2))
      (unboxed (divint_value (whole 0xffff_fff9) (whole 2)))
      (unboxed (modulus_value (whole 0xffff_fff9) (whole 2)))
unfolding int_val tag_make
divint_value-Division_example = divint_value-Division (whole 0xffff_fff9) (whole 2)

logic-bool_val_example :
    (not_value true_value ≡ false_value)
    × (and_value true_value false_value ≡ false_value)
    × (or_value true_value false_value ≡ true_value)
unfolding bool_val
logic-bool_val_example = logic-bool_val true false

not_value-comparisons_example :
    (not_equal_value equal_ident ≡ not_value (equal_value equal_ident))
    × (not_before_value equal_ident ≡ not_value (before_value equal_ident))
    × (not_after_value equal_ident ≡ not_value (after_value equal_ident))
not_value-comparisons_example = not_value-comparisons equal_ident
