-- ===== src/Elements/Roles.antt =====
-- The kinds of elements, each with the parsing functions and flags that its constructor sets, and
-- the fragments, which are the tokens of a document.
use hemp.Base.{
  ℕ, Bool, true, false, ◌&&◌, not, none, some, List, [], ◌∷◌, ◌==◌, if◌then◌else◌, ltb, leb,
}
use hemp.Chars.{Str, after_all}

-- `hemp_element_literal`, `_word`, `_prefix`, `_postfix`, `_prepostfix`, `_infix_left`,
-- `_infix_right`, `_number_plus` and `_number_minus` (`sign`), `_space`, `_tag_start`, `_delimiter`,
-- `_separator`, `_terminator`, `_parens` and `_list`.
pub data Role : Type 0 where
  literal : Role
  word : Role
  prefix : Role
  postfix : Role
  prepostfix : Role
  infix_left : Role
  infix_right : Role
  sign : Role
  space : Role
  tag_start : Role
  delimiter : Role
  separator : Role
  terminator : Role
  parens : Role
  list : Role

pub record Element : Type 0 where
  pub role : Role
  pub lprec : ℕ
  pub rprec : ℕ
  pub end : Str

-- `token` is the source from the start of the fragment on.
pub record Fragment : Type 0 where
  pub type : Element
  pub token : Str

-- `parse_prefix`
pub data Prefix : Type 0 where
  no_prefix : Prefix
  operand_prefix : Prefix
  operator_prefix : Prefix
  space_prefix : Prefix
  brackets_prefix : Prefix

abbrev pub parse_prefix_of : Role → Prefix
parse_prefix_of literal = operand_prefix
parse_prefix_of word = operand_prefix
parse_prefix_of prefix = operator_prefix
parse_prefix_of postfix = no_prefix
parse_prefix_of prepostfix = operator_prefix
parse_prefix_of infix_left = no_prefix
parse_prefix_of infix_right = no_prefix
parse_prefix_of sign = operator_prefix
parse_prefix_of space = space_prefix
parse_prefix_of tag_start = space_prefix
parse_prefix_of delimiter = no_prefix
parse_prefix_of separator = no_prefix
parse_prefix_of terminator = no_prefix
parse_prefix_of parens = brackets_prefix
parse_prefix_of list = brackets_prefix

-- `parse_postfix`
pub data Postfix : Type 0 where
  no_postfix : Postfix
  operator_postfix : Postfix
  left_postfix : Postfix
  right_postfix : Postfix
  space_postfix : Postfix
  parens_postfix : Postfix

abbrev pub parse_postfix_of : Role → Postfix
parse_postfix_of literal = no_postfix
parse_postfix_of word = no_postfix
parse_postfix_of prefix = no_postfix
parse_postfix_of postfix = operator_postfix
parse_postfix_of prepostfix = operator_postfix
parse_postfix_of infix_left = left_postfix
parse_postfix_of infix_right = right_postfix
parse_postfix_of sign = left_postfix
parse_postfix_of space = space_postfix
parse_postfix_of tag_start = no_postfix
parse_postfix_of delimiter = no_postfix
parse_postfix_of separator = no_postfix
parse_postfix_of terminator = no_postfix
parse_postfix_of parens = parens_postfix
parse_postfix_of list = no_postfix

-- `HEMP_BE_WHITESPACE`, and the flags that `hemp_skip_separator` passes over.
abbrev pub is_whitespace : Role → Bool
is_whitespace space = true
is_whitespace tag_start = true
is_whitespace _ = false

abbrev pub is_separator : Role → Bool
is_separator space = true
is_separator tag_start = true
is_separator delimiter = true
is_separator separator = true
is_separator _ = false

abbrev pub is_terminator : Role → Bool
is_terminator terminator = true
is_terminator _ = false

-- `HEMP_BE_POSTBOUND`
abbrev pub is_postbound : Role → Bool
is_postbound parens = true
is_postbound _ = false

-- `hemp_skip_while`; the end of the list is the fragment of the end of file.
unfoldable pub skip_while : (Role → Bool) → List Fragment → List Fragment
skip_while flag [] = []
skip_while flag (t ∷ ts) = if flag t.type.role then skip_while flag ts else t ∷ ts

-- `hemp_element_terminator_matches`
unfoldable pub terminator_matches : Fragment → Str → Bool
terminator_matches t end =
    is_terminator t.type.role && (elim (after_all end t.token) [ none ↦ false | some _ ↦ true ])

-- The test of `HEMP_INFIX_LEFT_PRECEDENCE` or `HEMP_INFIX_RIGHT_PRECEDENCE`: the operator takes what
-- is on its left.
unfoldable pub binds : ℕ → Fragment → Bool
binds precedence t = elim (parse_postfix_of t.type.role) [
  | right_postfix ↦ not (not (precedence == 0) && ltb t.type.lprec precedence)
  | _ ↦ not (not (precedence == 0) && leb t.type.lprec precedence)
]
