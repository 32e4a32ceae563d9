-- ===== src/Elements/Tests.antt =====
-- Runs of the parser on small inputs, and the theorems at them.
use hemp.Base.{arith, ℕ, ◌≡◌, refl, some, none, [], ◌∷◌}
use hemp.Chars.{Str, after, after_all}
use hemp.Elements.Outcome.{ok, failed, Ensures}
use hemp.Elements.Roles.{
  Role, Fragment, literal, infix_left, infix_right, sign, space, separator, terminator, parens,
  skip_while, terminator_matches, binds,
}
use hemp.Elements.Parser.{
  operand, unary, binary, brackets, apply, no_exprs, cons, Fragments, behind_space, next_operator,
  close, brackets_parse, postfix_call, postfix_case, prefix_call, parse_prefix, fragment_parse,
}
use hemp.Elements.Laws.{GoodBlock, fragment_parse-GoodBlock}

abbrev fragment : Role → ℕ → ℕ → Str → Fragment
fragment role lprec rprec token = record {
  type = record { role = role; lprec = lprec; rprec = rprec; end = b')' ∷ [] };
  token = token;
}

abbrev a : Fragment
a = fragment literal 0 0 (b'a' ∷ [])

abbrev minus : Fragment
minus = fragment sign 270 290 (b'-' ∷ [])

abbrev times : Fragment
times = fragment infix_left 280 0 (b'*' ∷ [])

abbrev power : Fragment
power = fragment infix_right 300 0 (b'^' ∷ [])

abbrev blank : Fragment
blank = fragment space 0 0 (32 ∷ [])

abbrev semicolon : Fragment
semicolon = fragment separator 0 0 (b';' ∷ [])

abbrev open_paren : Fragment
open_paren = fragment parens 350 0 (b'(' ∷ [])

abbrev close_paren : Fragment
close_paren = fragment terminator 0 0 (b')' ∷ [])

-- `a - a * a - a`
abbrev sum : Fragments
sum = a ∷ blank ∷ minus ∷ a ∷ times ∷ a ∷ minus ∷ a ∷ []

program : Unit {0}
unfolding after after_all skip_while terminator_matches binds behind_space next_operator close
    brackets_parse postfix_call postfix_case prefix_call parse_prefix fragment_parse
program =
    let t0 : fragment_parse sum
        ≡ ok (
            some (
              cons
                (binary minus (binary minus (operand a) (binary times (operand a) (operand a)))
                  (operand a))
                no_exprs)) =
      refl in
    let t1 : fragment_parse (a ∷ power ∷ a ∷ power ∷ a ∷ [])
        ≡ ok (
            some
              (cons (binary power (operand a) (binary power (operand a) (operand a))) no_exprs)) =
      refl in
    let t2 : fragment_parse (minus ∷ a ∷ times ∷ a ∷ [])
        ≡ ok (some (cons (binary times (unary minus (operand a)) (operand a)) no_exprs)) =
      refl in
    let t3 : fragment_parse (a ∷ open_paren ∷ a ∷ close_paren ∷ [])
        ≡ ok (
            some (
              cons (apply (operand a) open_paren (cons (operand a) no_exprs) close_paren)
                no_exprs)) =
      refl in
    let t4 : fragment_parse (a ∷ blank ∷ open_paren ∷ a ∷ close_paren ∷ semicolon ∷ [])
        ≡ ok (
            some (
              cons (operand a)
                (cons (brackets open_paren (cons (operand a) no_exprs) close_paren) no_exprs))) =
      refl in
    let t5 : fragment_parse (a ∷ minus ∷ semicolon ∷ []) ≡ failed = refl in
    let t6 : fragment_parse (semicolon ∷ []) ≡ ok none = refl in
    let t7 : fragment_parse (open_paren ∷ a ∷ []) ≡ failed = refl in
    let t8 : fragment_parse (a ∷ close_paren ∷ []) ≡ failed = refl in tt

fragment_parse-GoodBlock_example : Ensures (GoodBlock sum) (fragment_parse sum)
fragment_parse-GoodBlock_example = fragment_parse-GoodBlock sum (omega arith)
