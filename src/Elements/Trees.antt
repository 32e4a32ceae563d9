-- ===== src/Elements/Trees.antt =====
-- What an expression should be: the fragments of the source in their order, bound by precedence.
use hemp.Base.{
  ℕ, suc, ◌≤◌, ◌≡◌, ◌⊎◌, inl, inr, refl, ap, sym, ◌∙◌, Bool, true, false, none, some, [], ◌∷◌, ◌++◌,
  if◌then◌else◌, length, arith, Bool-cases, Option-cases, ltb, leb, ◌==◌,
}
use hemp.Chars.{Str, after_all, after_all-append}
use hemp.Elements.Roles.{
  Role, Fragment, space, terminator, infix_right, is_whitespace, is_separator, is_postbound,
  is_terminator, skip_while, binds, terminator_matches, parse_postfix_of, Postfix, Prefix,
  parse_prefix_of, no_prefix, space_prefix, no_postfix, space_postfix,
}
use hemp.Elements.Parser.{
  Expr, operand, unary, postunary, binary, brackets, apply, Exprs, no_exprs, cons, Fragments,
  behind_space, next_operator,
}

-- A fragment that belongs to no expression: whitespace, a delimiter or a separator.
abbrev pub is_dropped : Role → Bool
is_dropped r = is_separator r

unfoldable pub solid : Fragments → Fragments
solid [] = []
solid (t ∷ ts) = if is_dropped t.type.role then solid ts else t ∷ solid ts

-- The fragments of an expression from left to right.
unfoldable mutual
  pub yield : Expr → Fragments
  yield (operand t) = t ∷ []
  yield (unary t e) = t ∷ yield e
  yield (postunary t e) = yield e ++ t ∷ []
  yield (binary t l r) = yield l ++ t ∷ yield r
  yield (brackets t es c) = t ∷ (yields es ++ c ∷ [])
  yield (apply e t es c) = yield e ++ t ∷ (yields es ++ c ∷ [])

  pub yields : Exprs → Fragments
  yields no_exprs = []
  yields (cons e es) = yield e ++ yields es

abbrev is_right : Role → Bool
is_right infix_right = true
is_right _ = false

-- An operator takes what is on its left, behind an operator of precedence `p`: always behind 0, else if it binds
-- more tightly or, for a right-associative one, as tightly.
unfoldable pub takes : ℕ → Fragment → Bool
takes p t =
    if p == 0 then true else if is_right t.type.role then leb p t.type.lprec else ltb p t.type.lprec

pub binds-takes : (p : ℕ) (t : Fragment) → binds p t ≡ takes p t
unfolding binds takes
binds-takes p t = ground arith

-- The token of a terminator starts with the end of the brackets.
pub record Closes (t c : Fragment) : Type 0 where
  pub role : c.type.role ≡ terminator
  pub more : Str
  pub token : c.token ≡ t.type.end ++ more

-- Every operator of the expression that has its left operand in the open binds at this precedence.
unfoldable pub Above : ℕ → Expr → Type 0
Above p (operand t) = Unit
Above p (unary t e) = Unit
Above p (postunary t e) = (takes p t ≡ true) × Above p e
Above p (binary t l r) = (takes p t ≡ true) × Above p l
Above p (brackets t es c) = Unit
Above p (apply e t es c) = (takes p t ≡ true) × Above p e

-- No operand on the right edge of the expression is one that the operator would have taken.
unfoldable pub Leaves : Fragment → Expr → Type 0
Leaves t (operand s) = Unit
Leaves t (unary s e) = (takes s.type.rprec t ≡ false) × Leaves t e
Leaves t (postunary s e) = Unit
Leaves t (binary s l r) = (takes s.type.lprec t ≡ false) × Leaves t r
Leaves t (brackets s es c) = Unit
Leaves t (apply e s es c) = Unit

-- The expression is grouped as the precedences say, at each of its operators, and its brackets are closed by
-- terminators of theirs.
unfoldable mutual
  pub Bound : Expr → Type 0
  Bound (operand t) = Unit
  Bound (unary t e) = Bound e × Above t.type.rprec e
  Bound (postunary t e) = Bound e × Leaves t e
  Bound (binary t l r) = Bound l × Bound r × Leaves t l × Above t.type.lprec r
  Bound (brackets t es c) = Bounds es × Closes t c
  Bound (apply e t es c) = Bound e × Leaves t e × Bounds es × Closes t c

  pub Bounds : Exprs → Type 0
  Bounds no_exprs = Unit
  Bounds (cons e es) = Bound e × Bounds es

abbrev pub takes_left : Postfix → Bool
takes_left no_postfix = false
takes_left space_postfix = false
takes_left _ = true

abbrev pub is_operator : Role → Bool
is_operator r = takes_left (parse_postfix_of r)

operator-kept : (r : Role) → is_operator r ≡ true → is_dropped r ≡ false
operator-kept r h = ground arith

-- What a position holds: no operator, or one and what follows it.
abbrev pub Upcoming : Fragments → Type 0
Upcoming ts =
    (next_operator ts ≡ none)
    ⊎ ((t : Fragment) × (rest : Fragments) × (next_operator ts ≡ some (t, rest))
        × (is_operator t.type.role ≡ true)
        × (solid ts ≡ t ∷ solid rest)
        × (suc (length rest) ≤ length ts))

pub skip_while-solid :
    (flag : Role → Bool) (ts : Fragments)
    → ((r : Role) → flag r ≡ true → is_dropped r ≡ true)
    → solid (skip_while flag ts) ≡ solid ts
unfolding skip_while solid
skip_while-solid flag [] h = refl
skip_while-solid flag (t ∷ ts) h = elim (Bool-cases (flag t.type.role)) [
  | inl e ↦ rw (e, h t.type.role e) (skip_while-solid flag ts h)
  | inr e ↦ rw e
]

pub length-skip_while :
    (flag : Role → Bool) (ts : Fragments) → length (skip_while flag ts) ≤ length ts
unfolding skip_while
length-skip_while flag [] = omega arith
length-skip_while flag (t ∷ ts) = ground (arith, length-skip_while flag ts)

pub whitespace-dropped : (r : Role) → is_whitespace r ≡ true → is_dropped r ≡ true
whitespace-dropped r h = ground arith

pub separator-dropped : (r : Role) → is_separator r ≡ true → is_dropped r ≡ true
separator-dropped r h = ground arith

abbrev starts_white : Fragments → Bool
starts_white [] = false
starts_white (t ∷ ts) = is_whitespace t.type.role

skip_while-starts : (ts : Fragments) → starts_white (skip_while is_whitespace ts) ≡ false
unfolding skip_while
skip_while-starts [] = refl
skip_while-starts (t ∷ ts) = elim (Bool-cases (is_whitespace t.type.role)) [
  | inl e ↦ rw e (skip_while-starts ts)
  | inr e ↦ rw e e
]

-- The operator behind whitespace, or none.
behind_space-Upcoming :
    (ts : Fragments)
    → starts_white ts ≡ false
    → (behind_space ts ≡ none)
      ⊎ ((t : Fragment) × (rest : Fragments) × (behind_space ts ≡ some (t, rest))
          × (is_operator t.type.role ≡ true)
          × (ts ≡ t ∷ rest))
unfolding behind_space
behind_space-Upcoming [] h = inl refl
behind_space-Upcoming (t ∷ ts) h = elim (Bool-cases (is_operator t.type.role)) [
  | inr non ↦ inl (ground arith)
  | inl op ↦ elim (Bool-cases (is_postbound t.type.role)) [
    | inl bound ↦ inl (ground arith)
    | inr free ↦ inr (t, ts, ground arith, op, refl)
  ]
]

pub solid-kept :
    (t : Fragment) (ts : Fragments) → is_dropped t.type.role ≡ false → solid (t ∷ ts) ≡ t ∷ solid ts
unfolding solid
solid-kept t ts h = rw h

abbrev pub calls : Prefix → Bool
calls no_prefix = false
calls space_prefix = false
calls _ = true

pub prefix-kept : (r : Role) → calls (parse_prefix_of r) ≡ true → is_dropped r ≡ false
prefix-kept r h = ground arith

abbrev pub passes : Prefix → Bool
passes space_prefix = true
passes _ = false

pub prefix-dropped : (r : Role) → passes (parse_prefix_of r) ≡ true → is_dropped r ≡ true
prefix-dropped r h = ground arith

pub solid-operator :
    (t : Fragment) (ts : Fragments) → is_operator t.type.role ≡ true → solid (t ∷ ts) ≡ t ∷ solid ts
unfolding solid
solid-operator t ts h = rw (operator-kept t.type.role h)

-- The operator that is found, where one stands, is the next one.
pub next_operator-cons :
    (t : Fragment) (ts : Fragments)
    → is_operator t.type.role ≡ true
    → next_operator (t ∷ ts) ≡ some (t, ts)
unfolding next_operator
next_operator-cons t ts h = ground arith

pub solid-white :
    (t : Fragment) (ts : Fragments) → is_dropped t.type.role ≡ true → solid (t ∷ ts) ≡ solid ts
unfolding solid
solid-white t ts h = rw h

abbrev is_space : Role → Bool
is_space space = true
is_space _ = false

next_operator-space :
    (t : Fragment) (ts : Fragments)
    → is_space t.type.role ≡ true
    → next_operator (t ∷ ts) ≡ behind_space (skip_while is_whitespace ts)
unfolding next_operator
next_operator-space t ts h = ground arith

pub next_operator-Upcoming : (ts : Fragments) → Upcoming ts
unfolding next_operator
next_operator-Upcoming [] = inl refl
next_operator-Upcoming (t ∷ ts) = elim (Bool-cases (is_operator t.type.role)) [
  | inl op ↦ inr (t, ts, next_operator-cons t ts op, op, solid-operator t ts op, omega arith)
  | inr non ↦ elim (Bool-cases (is_space t.type.role)) [
    | inr other ↦ inl (ground arith)
    | inl white ↦
        elim (behind_space-Upcoming (skip_while is_whitespace ts) (skip_while-starts ts)) [
          | inl e ↦ inl (next_operator-space t ts white ∙ e)
          | inr (s, rest, e, op, eq) ↦ inr (
            s,
            rest,
            next_operator-space t ts white ∙ e,
            op,
            solid-white t ts (ground arith)
                ∙ (sym (skip_while-solid is_whitespace ts whitespace-dropped)
                    ∙ (ap (λ xs. solid xs) eq ∙ solid-operator s rest op)),
            omega (arith, ap (λ xs. length xs) eq, length-skip_while is_whitespace ts),
          )
        ]
  ]
]

terminator_role : (r : Role) → is_terminator r ≡ true → r ≡ terminator
terminator_role r h = ground arith

pub matches-Closes : (t c : Fragment) → terminator_matches c t.type.end ≡ true → Closes t c
unfolding terminator_matches
matches-Closes t c h = elim (Option-cases (after_all t.type.end c.token)) [
  | inl e ↦ ground (arith, h, e)
  | inr (more, e) ↦ record {
    role = terminator_role c.type.role (ground (arith, h));
    more = more;
    token = after_all-append t.type.end c.token e;
  }
]

pub solid-terminator :
    (c : Fragment) (ts : Fragments) → c.type.role ≡ terminator → solid (c ∷ ts) ≡ c ∷ solid ts
solid-terminator c ts h = solid-kept c ts (rw h refl)
