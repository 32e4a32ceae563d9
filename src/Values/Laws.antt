-- ===== src/Values/Laws.antt =====
-- A value has one type, and what was put into it is taken out of it.
use hemp.Base.{
  ℕ, ◌/◌, ◌^◌, ◌<◌, ◌≡◌, ◌↔◌, refl, Bool, true, false, ◌&&◌, ◌||◌, not, ◌==◌, arith, if◌then◌else◌,
}
use hemp.Values.Word.{
  integer_id, tag_make, tag_down, tag_valid, type_id, is_number, int_val, val_int, type_val,
  pointer, ident_valid, ident_id, ident_any, ident_not, is_missing, is_undefined, is_boolean,
  is_true, is_false, is_before, is_after, is_equal,
}
use hemp.Values.Logic.{
  not_value, and_value, or_value, equal_value, not_equal_value, before_value, not_before_value,
  after_value, not_after_value, true_value, false_value, bool_val,
}

-- A pointer of at most 47 bits that is packed with a type of five bits is a word of 64 bits with this
-- type and this pointer, and it is no number.
pub type_val-fields :
    (t p : ℕ)
    → t < 32
    → p < 2 ^ 47
    → (type_id (type_val t p) ≡ t)
      × (pointer (type_val t p) ≡ p)
      × (is_number (type_val t p) ≡ false)
      × (type_val t p < 2 ^ 64)
unfolding type_val tag_make type_id tag_valid tag_down pointer is_number
type_val-fields t p ht hp = (ground arith, ground arith, ground arith, omega arith)

-- The same of the 32 bits of an integer.
pub int_val-fields :
    (i : ℕ)
    → i < 2 ^ 32
    → (type_id (int_val i) ≡ integer_id)
      × (val_int (int_val i) ≡ i)
      × (is_number (int_val i) ≡ false)
      × (int_val i < 2 ^ 64)
unfolding int_val tag_make type_id tag_valid tag_down val_int is_number
int_val-fields i h = (ground arith, ground arith, ground arith, omega arith)

-- A word is a number or tagged, never both.
pub number_iff : (v : ℕ) → v < 2 ^ 64 → (is_number v ≡ true) ↔ (tag_valid v ≡ false)
unfolding is_number tag_valid
number_iff v h = ground arith

-- A number, and a word whose type is below that of the identity values, is not taken for missing,
-- undefined, true, false or a truth value.
pub not_identity :
    (v : ℕ)
    → v < 2 ^ 64
    → type_id v < 16
    → (is_missing v ≡ false)
      × (is_undefined v ≡ false)
      × (is_true v ≡ false)
      × (is_false v ≡ false)
      × (is_boolean v ≡ false)
unfolding type_id tag_valid tag_down is_missing is_undefined is_true is_false is_boolean ident_not
    ident_any ident_id ident_valid
not_identity v h t =
    let e : (v / 2 ^ 51 == 0x1fff) ≡ false = ground arith in rw e (refl, refl, refl, refl, refl)

not_value-if :
    (b : Bool)
    → (if b then false_value else true_value) ≡ not_value (if b then true_value else false_value)
unfolding not_value is_true ident_any ident_id ident_valid
not_value-if true = refl
not_value-if false = refl

-- The negated comparisons are the negations of the comparisons, whatever value they get.
pub not_value-comparisons :
    (v : ℕ)
    → (not_equal_value v ≡ not_value (equal_value v))
      × (not_before_value v ≡ not_value (before_value v))
      × (not_after_value v ≡ not_value (after_value v))
unfolding equal_value not_equal_value before_value not_before_value after_value not_after_value
not_value-comparisons v =
    (not_value-if (is_equal v), not_value-if (is_before v), not_value-if (is_after v))

-- On the values of truth values the operators are those of the truth values.
pub logic-bool_val :
    (a b : Bool)
    → (not_value (bool_val a) ≡ bool_val (not a))
      × (and_value (bool_val a) (bool_val b) ≡ bool_val (a && b))
      × (or_value (bool_val a) (bool_val b) ≡ bool_val (a || b))
unfolding not_value and_value or_value bool_val is_true ident_any ident_id ident_valid
logic-bool_val true true = (refl, refl, refl)
logic-bool_val true false = (refl, refl, refl)
logic-bool_val false true = (refl, refl, refl)
logic-bool_val false false = (refl, refl, refl)
