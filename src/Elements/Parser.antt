-- ===== src/Elements/Parser.antt =====
-- The parsing functions of library/element.c, library/parser.c and library/element/{space,bracket}.c.
--
-- The position `fragptr` is the list of the fragments from there on. The scope, which these functions
-- only pass on, and the flags that they set on fragments are left out. The functions call each other
-- through the element's function pointers, so each takes those that it calls, and the three at the
-- end tie them together with fuel.
use hemp.Base.{ℕ, zero, suc, ◌+◌, ◌*◌, Option, none, some, List, [], ◌∷◌, if◌then◌else◌, length}
use hemp.Elements.Outcome.{Outcome, ok, failed, no_fuel, ◌>>=◌}
use hemp.Elements.Roles.{
  Fragment, Prefix, Postfix, parse_prefix_of, no_prefix, operand_prefix, operator_prefix,
  space_prefix, brackets_prefix, parse_postfix_of, no_postfix, operator_postfix, left_postfix,
  right_postfix, space_postfix, parens_postfix, is_whitespace, is_separator, is_postbound,
  skip_while, terminator_matches, binds,
}

-- An expression is a fragment with its operands: `op.unary`, `op.binary` and `op.block`. `apply` is
-- the fragment of type `hemp.apply` that a call of a function adds. Brackets come with the terminator that closes
-- them, which the code steps over and does not keep. The list that hemp_parse_exprs pushes on grows up to 2 ^ 15
-- expressions, the number of fragments that the theorem on `fragment_parse` allows.
mutual
  pub data Expr : Type 0 where
    operand : Fragment → Expr
    unary : Fragment → Expr → Expr
    postunary : Fragment → Expr → Expr
    binary : Fragment → Expr → Expr → Expr
    brackets : Fragment → Exprs → Fragment → Expr
    apply : Expr → Fragment → Exprs → Fragment → Expr

  pub data Exprs : Type 0 where
    no_exprs : Exprs
    cons : Expr → Exprs → Exprs

abbrev pub Fragments : Type 0
Fragments = List Fragment

-- The types of `hemp_parse_prefix`, `hemp_parse_postfix` and `hemp_parse_exprs`, by precedence.
abbrev pub ParsePrefix : Type 0
ParsePrefix = ℕ → Fragments → Outcome (Option Expr × Fragments)

abbrev pub ParsePostfix : Type 0
ParsePostfix = ℕ → Expr → Fragments → Outcome (Expr × Fragments)

abbrev pub ParseExprs : Type 0
ParseExprs = ℕ → Fragments → Outcome (Exprs × Fragments)

-- An expression that must be there: `hemp_fatal` or `HEMP_THROW_NOEXPR` otherwise.
abbrev pub required : Option Expr × Fragments → Outcome (Expr × Fragments)
required (none, ts) = failed
required (some e, ts) = ok (e, ts)

-- `hemp_element_space_postfix` behind the whitespace: the operator that is called, with what
-- follows it, unless the position is set back.
unfoldable pub behind_space : Fragments → Option (Fragment × Fragments)
behind_space [] = none
behind_space (t ∷ ts) = elim (parse_postfix_of t.type.role) [
  | no_postfix ↦ none
  | _ ↦ if is_postbound t.type.role then none else some (t, ts)
]

-- The postfix operator that `hemp_parse_postfix` calls in the end, with what follows it.
unfoldable pub next_operator : Fragments → Option (Fragment × Fragments)
unfolding behind_space skip_while
next_operator [] = none
next_operator (t ∷ ts) = elim (parse_postfix_of t.type.role) [
  | no_postfix ↦ none
  | space_postfix ↦ behind_space (skip_while is_whitespace ts)
  | _ ↦ some (t, ts)
]

-- The end of `hemp_element_brackets_parse`, where the expressions have been parsed.
unfoldable pub close : Fragment → Exprs → Fragments → Outcome ((Exprs × Fragment) × Fragments)
close t es [] = failed
close t es (c ∷ ts) = if terminator_matches c t.type.end then ok ((es, c), ts) else failed

-- `hemp_element_brackets_parse` behind the opening bracket.
unfoldable pub brackets_parse :
    ParseExprs → Fragment → Fragments → Outcome ((Exprs × Fragment) × Fragments)
unfolding close
brackets_parse exprs t ts = exprs 0 ts >>= λ (es, rest). close t es (skip_while is_whitespace rest)

-- The postfix functions, where the operator binds.
unfoldable pub postfix_call :
    Postfix
    → ParsePrefix
    → ParsePostfix
    → ParseExprs
    → ℕ
    → Expr
    → Fragment
    → Fragments
    → Outcome (Expr × Fragments)
unfolding brackets_parse
postfix_call no_postfix prefix postfix exprs precedence lhs t ts = ok (lhs, t ∷ ts)
postfix_call space_postfix prefix postfix exprs precedence lhs t ts = ok (lhs, t ∷ ts)
postfix_call operator_postfix prefix postfix exprs precedence lhs t ts =
    postfix precedence (postunary t lhs) ts
postfix_call left_postfix prefix postfix exprs precedence lhs t ts =
    prefix t.type.lprec ts >>= required >>= λ (rhs, rest).
    postfix precedence (binary t lhs rhs) rest
postfix_call right_postfix prefix postfix exprs precedence lhs t ts =
    prefix t.type.lprec ts >>= required >>= λ (rhs, rest).
    postfix precedence (binary t lhs rhs) rest
postfix_call parens_postfix prefix postfix exprs precedence lhs t ts =
    brackets_parse exprs t ts >>= λ ((es, c), rest). postfix precedence (apply lhs t es c) rest

-- The postfix functions, at an operator and what follows it.
unfoldable pub postfix_case :
    ParsePrefix
    → ParsePostfix
    → ParseExprs
    → ℕ
    → Expr
    → Fragment
    → Fragments
    → Outcome (Expr × Fragments)
unfolding postfix_call
postfix_case prefix postfix exprs precedence lhs t ts =
    if binds precedence t
    then postfix_call (parse_postfix_of t.type.role) prefix postfix exprs precedence lhs t ts
    else ok (lhs, t ∷ ts)

-- What `hemp_parse_prefix` does with an expression: it goes on behind it.
abbrev pub go_on : ParsePostfix → ℕ → Expr × Fragments → Outcome (Option Expr × Fragments)
go_on postfix precedence (e, ts) = postfix precedence e ts >>= λ (e', rest). ok (some e', rest)

-- The prefix functions.
unfoldable pub prefix_call :
    Prefix
    → ParsePrefix
    → ParsePostfix
    → ParseExprs
    → ℕ
    → Fragment
    → Fragments
    → Outcome (Option Expr × Fragments)
unfolding brackets_parse
prefix_call no_prefix prefix postfix exprs precedence t ts = ok (none, t ∷ ts)
prefix_call operand_prefix prefix postfix exprs precedence t ts =
    go_on postfix precedence (operand t, ts)
prefix_call operator_prefix prefix postfix exprs precedence t ts =
    prefix t.type.rprec ts >>= required >>= λ (e, rest). go_on postfix precedence (unary t e, rest)
prefix_call space_prefix prefix postfix exprs precedence t ts = prefix precedence ts
prefix_call brackets_prefix prefix postfix exprs precedence t ts =
    brackets_parse exprs t ts >>= λ ((es, c), rest).
    go_on postfix precedence (brackets t es c, rest)

-- A round of `hemp_parse_exprs`.
abbrev pub exprs_case : ParseExprs → ℕ → Option Expr × Fragments → Outcome (Exprs × Fragments)
exprs_case exprs precedence (none, ts) = ok (no_exprs, ts)
exprs_case exprs precedence (some e, ts) =
    exprs precedence ts >>= λ (es, rest). ok (cons e es, rest)

unfoldable mutual
  pub parse_prefix : ℕ → ParsePrefix
  parse_prefix zero precedence ts = no_fuel
  parse_prefix (suc f) precedence [] = ok (none, [])
  parse_prefix (suc f) precedence (t ∷ ts) =
      prefix_call (parse_prefix_of t.type.role) (parse_prefix f) (parse_postfix f) (parse_exprs f)
        precedence t ts

  pub parse_postfix : ℕ → ParsePostfix
  parse_postfix zero precedence lhs ts = no_fuel
  parse_postfix (suc f) precedence lhs ts = elim (next_operator ts) [
    | none ↦ ok (lhs, ts)
    | some (t, rest) ↦
        postfix_case (parse_prefix f) (parse_postfix f) (parse_exprs f) precedence lhs t rest
  ]

  pub parse_exprs : ℕ → ParseExprs
  parse_exprs zero precedence ts = no_fuel
  parse_exprs (suc f) precedence ts =
      parse_prefix f precedence (skip_while is_separator ts)
      >>= exprs_case (parse_exprs f) precedence

-- `hemp_parse_block` without `force`: there is no block without expressions.
abbrev pub block_of : Exprs → Option Exprs
block_of no_exprs = none
block_of (cons e es) = some (cons e es)

-- The test for the end of file.
abbrev pub at_eof : Exprs × Fragments → Outcome (Option Exprs)
at_eof (es, []) = ok (block_of es)
at_eof (es, t ∷ ts) = failed

-- `hemp_fragment_parse`
unfoldable pub fragment_parse : Fragments → Outcome (Option Exprs)
fragment_parse ts = parse_exprs (2 * length ts + 3) 0 ts >>= at_eof
