-- ===== src/Values/Word.antt =====
-- Values as words of 64 bits, on a machine whose words have 64 bits. A shift and a mask are a quotient
-- and a remainder, and `|` of parts that share no bit is their sum. A double is its bit pattern.
use Prim.Native.Nat.{bit_and, bit_or}
use hemp.Base.{ℕ, ◌+◌, ◌*◌, ◌/◌, ◌%◌, ◌^◌, Bool, ◌&&◌, not, ◌==◌, if◌then◌else◌, ltb}

abbrev pub integer_id : ℕ
integer_id = 0x01

abbrev pub pointer_id : ℕ
pointer_id = 0x02

abbrev pub string_id : ℕ
string_id = 0x03

abbrev pub text_id : ℕ
text_id = 0x04

abbrev pub identity_id : ℕ
identity_id = 0x10

abbrev pub found_bit : ℕ
found_bit = 0x02

abbrev pub defined_bit : ℕ
defined_bit = 0x04

abbrev pub true_bit : ℕ
true_bit = 0x10

abbrev pub finite_bit : ℕ
finite_bit = 0x01

-- `HEMP_IDENT_MISSING` and the constants that follow it.
abbrev pub ident_missing : ℕ
ident_missing = 0x01

abbrev pub ident_nothing : ℕ
ident_nothing = bit_or 0x01 0x02

abbrev pub ident_empty : ℕ
ident_empty = bit_or ident_nothing 0x04

abbrev pub ident_false : ℕ
ident_false = bit_or ident_empty 0x08

abbrev pub ident_true : ℕ
ident_true = bit_or ident_false 0x10

abbrev pub ident_before : ℕ
ident_before = bit_or ident_true 0x20

abbrev pub ident_after : ℕ
ident_after = bit_or ident_true 0x40

abbrev pub ident_equal : ℕ
ident_equal = bit_or ident_false (bit_or 0x40 0x20)

abbrev pub infinity : ℕ
infinity = 0xfff0_0000_0000_0000

-- `HEMP_TAG_MAKE`
unfoldable pub tag_make : ℕ → ℕ
tag_make t = infinity + t % 32 * 2 ^ 47

-- `HEMP_TAG_DOWN`
unfoldable pub tag_down : ℕ → ℕ
tag_down v = v / 2 ^ 47 % 2 ^ 8 % 32

-- `HEMP_TAG_VALID`: the upper twelve bits are set.
unfoldable pub tag_valid : ℕ → Bool
tag_valid v = v / 2 ^ 52 == 0xfff

-- `HEMP_TYPE_ID`
unfoldable pub type_id : ℕ → ℕ
unfolding tag_valid tag_down
type_id v = if tag_valid v then tag_down v else 0

-- `hemp_is_number`
unfoldable pub is_number : ℕ → Bool
is_number v = ltb v infinity

-- `hemp_int_val`, of the bits of an integer, and `hemp_val_int`
unfoldable pub int_val : ℕ → ℕ
unfolding tag_make
int_val i = tag_make integer_id + i % 2 ^ 32

unfoldable pub val_int : ℕ → ℕ
val_int v = v % 2 ^ 32

-- `hemp_type_val`, and so `hemp_ptr_val`, `hemp_str_val` and the others with their tags
unfoldable pub type_val : ℕ → ℕ → ℕ
unfolding tag_make
type_val t p = tag_make t + p % 2 ^ 47

-- `HEMP_POINTER`
unfoldable pub pointer : ℕ → ℕ
pointer v = v % 2 ^ 47

-- `HEMP_IDENTITY`
abbrev pub identity : ℕ
identity = 0xfff8_0000_0000_0001

-- `HEMP_IDENT_MAKE`
unfoldable pub ident_make : ℕ → ℕ
ident_make i = bit_or identity i

-- `HEMP_IDENT_VALID`: the upper thirteen bits and the lowest are set.
unfoldable pub ident_valid : ℕ → Bool
ident_valid v = (v / 2 ^ 51 == 0x1fff) && (v % 2 == 1)

-- `HEMP_IDENT_ID`
unfoldable pub ident_id : ℕ → ℕ
unfolding ident_valid
ident_id v = if ident_valid v then v % 2 ^ 8 else 0

-- `HEMP_IDENT_IS`
unfoldable pub ident_is : ℕ → ℕ → Bool
unfolding ident_make
ident_is v i = v == ident_make i

-- `HEMP_IDENT_ANY`, as a truth value
unfoldable pub ident_any : ℕ → ℕ → Bool
unfolding ident_id
ident_any v b = not (bit_and (ident_id v) b == 0)

-- `HEMP_IDENT_NOT`
unfoldable pub ident_not : ℕ → ℕ → Bool
unfolding ident_valid ident_any
ident_not v b = ident_valid v && not (ident_any v b)

unfoldable pub is_integer : ℕ → Bool
unfolding type_id
is_integer v = type_id v == integer_id

unfoldable pub is_missing : ℕ → Bool
unfolding ident_not
is_missing v = ident_not v found_bit

unfoldable pub is_undefined : ℕ → Bool
unfolding ident_not
is_undefined v = ident_not v defined_bit

unfoldable pub is_boolean : ℕ → Bool
unfolding ident_any
is_boolean v = ident_any v finite_bit

unfoldable pub is_true : ℕ → Bool
unfolding ident_any
is_true v = ident_any v true_bit

unfoldable pub is_false : ℕ → Bool
unfolding ident_not
is_false v = ident_not v true_bit

-- `hemp_is_compare`
unfoldable pub is_compare : ℕ → Bool
unfolding ident_any
is_compare v = ident_any v (bit_or 0x40 0x20)

unfoldable pub is_before : ℕ → Bool
unfolding ident_is
is_before v = ident_is v ident_before

unfoldable pub is_after : ℕ → Bool
unfolding ident_is
is_after v = ident_is v ident_after

unfoldable pub is_equal : ℕ → Bool
unfolding ident_is
is_equal v = ident_is v ident_equal
