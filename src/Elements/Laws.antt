-- ===== src/Elements/Laws.antt =====
-- The promises of the parsers, by one induction on the fuel.
use hemp.Base.{
  ℕ, zero, suc, ◌+◌, ◌*◌, ◌<◌, ◌≤◌, ◌≡◌, inl, inr, refl, ap, sym, ◌∙◌, true, false, Option, none,
  some, [], ◌∷◌, ◌++◌, length, arith, Bool-cases, append-nil, append_assoc,
}
use mathlib.Core.Path.{subst}
use hemp.Elements.Outcome.{Ensures}
use hemp.Elements.Roles.{
  Fragment, parse_prefix_of, parse_postfix_of, skip_while, is_separator, binds,
}
use hemp.Elements.Parser.{
  Expr, Exprs, no_exprs, cons, Fragments, ParsePrefix, ParsePostfix, ParseExprs, next_operator,
  postfix_case, exprs_case, parse_prefix, parse_postfix, parse_exprs, at_eof, fragment_parse,
}
use hemp.Elements.Trees.{
  solid, yield, yields, takes, binds-takes, Above, Leaves, Bound, Bounds, is_operator,
  skip_while-solid, length-skip_while, separator-dropped, next_operator-cons,
  next_operator-Upcoming, solid-operator,
}
use hemp.Elements.Sound.{
  GoodPrefix, Grown, GoodExprs, PrefixUpTo, PostfixUpTo, ExprsUpTo, Ensures-bind,
}
use hemp.Elements.Calls.{prefix_call-GoodPrefix, postfix_call-Grown}

-- The operator at a position is one.
same_operator :
    (t t' : Fragment) (r r' : Fragments) (o : Option (Fragment × Fragments))
    → o ≡ some (t, r)
    → o ≡ some (t', r')
    → t ≡ t'
same_operator t t' r r' o h k = cc

-- An operator that does not bind ends the expression.
declined-Grown :
    (p : ℕ) (lhs : Expr) (ts : Fragments) (t : Fragment) (rest : Fragments)
    → is_operator t.type.role ≡ true
    → suc (length rest) ≤ length ts
    → solid ts ≡ t ∷ solid rest
    → Bound lhs
    → Above p lhs
    → Leaves t lhs
    → takes p t ≡ false
    → Grown p lhs ts lhs (t ∷ rest)
declined-Grown p lhs ts t rest o short eq b a l e = record {
  shorter = omega arith;
  fragments = ap (λ xs. yield lhs ++ xs) (eq ∙ sym (solid-operator t rest o));
  bound = b;
  above = a;
  ends = λ t' r' h.
      let same =
        same_operator t t' rest r' (next_operator (t ∷ rest)) (next_operator-cons t rest o) h in
      (subst (λ s. takes p s ≡ false) same e, subst (λ s. Leaves s lhs) same l);
}

postfix_case-Grown :
    (f : ℕ) (prefix : ParsePrefix) (postfix : ParsePostfix) (exprs : ParseExprs) (p : ℕ)
    (lhs : Expr) (ts : Fragments) (t : Fragment) (rest : Fragments)
    → PrefixUpTo f prefix
    → PostfixUpTo f postfix
    → ExprsUpTo f exprs
    → 2 * length ts < suc f
    → is_operator t.type.role ≡ true
    → suc (length rest) ≤ length ts
    → solid ts ≡ t ∷ solid rest
    → Bound lhs
    → Above p lhs
    → Leaves t lhs
    → Ensures (λ r. Grown p lhs ts r.0 r.1) (postfix_case prefix postfix exprs p lhs t rest)
unfolding postfix_case
postfix_case-Grown f prefix postfix exprs p lhs ts t rest hp hq hr fuel o short eq b a l =
    elim (Bool-cases (binds p t)) [
      | inl e ↦ rw e (
          postfix_call-Grown (parse_postfix_of t.type.role) f prefix postfix exprs p lhs ts t rest o
            hp hq hr (omega arith) short eq b (sym (binds-takes p t) ∙ e, a) l)
      | inr e ↦ rw e (declined-Grown p lhs ts t rest o short eq b a l (sym (binds-takes p t) ∙ e))
    ]

-- One expression and those that follow it.
exprs_case-GoodExprs :
    (f : ℕ) (exprs : ParseExprs) (p : ℕ) (ts : Fragments)
    → ExprsUpTo f exprs
    → 2 * length ts + 1 < suc f
    → (r : Option Expr × Fragments) → GoodPrefix p (skip_while is_separator ts) r
    → Ensures (λ r. GoodExprs ts r.0 r.1) (exprs_case exprs p r)
unfolding yields Bounds
exprs_case-GoodExprs f exprs p ts hr fuel (none, rest) g = record {
  shorter = omega (arith, g.0, length-skip_while is_separator ts);
  fragments = sym (skip_while-solid is_separator ts separator-dropped) ∙ g.1;
  bound = tt;
}
exprs_case-GoodExprs f exprs p ts hr fuel (some e, rest) g =
    let short = length-skip_while is_separator ts in
    Ensures-bind (λ r. GoodExprs rest r.0 r.1) _ (exprs p rest) _
      (hr p rest (omega (arith, g.shorter)))
      (λ (es, rest') h. record {
        shorter = omega (arith, g.shorter, h.shorter);
        fragments =
            sym (skip_while-solid is_separator ts separator-dropped)
            ∙ (g.fragments
                ∙ (ap (λ xs. yield e ++ xs) h.fragments
                    ∙ sym (append_assoc (yield e) (yields es) (solid rest'))));
        bound = (g.bound, h.bound);
      })

mutual
  unfolding parse_prefix

  parse_prefix-GoodPrefix : (f : ℕ) → PrefixUpTo f (parse_prefix f)
  parse_prefix-GoodPrefix zero p ts h = omega arith
  parse_prefix-GoodPrefix (suc f) p [] h = (omega arith, refl)
  parse_prefix-GoodPrefix (suc f) p (t ∷ ts) h =
      prefix_call-GoodPrefix (parse_prefix_of t.type.role) f (parse_prefix f) (parse_postfix f)
        (parse_exprs f) p t ts refl (parse_prefix-GoodPrefix f) (parse_postfix-Grown f)
        (parse_exprs-GoodExprs f) (omega arith)

  parse_postfix-Grown : (f : ℕ) → PostfixUpTo f (parse_postfix f)
  parse_postfix-Grown zero p lhs ts h b a l = omega arith
  parse_postfix-Grown (suc f) p lhs ts h b a l = elim (next_operator-Upcoming ts) [
    | inl e ↦
        rw (parse_postfix, e)
          (record {
            shorter = omega arith;
            fragments = refl;
            bound = b;
            above = a;
            ends = λ t r k. cc;
          })
    | inr (t, rest, e, o, eq, short) ↦
        rw (parse_postfix, e)
          (postfix_case-Grown f (parse_prefix f) (parse_postfix f) (parse_exprs f) p lhs ts t rest
            (parse_prefix-GoodPrefix f) (parse_postfix-Grown f) (parse_exprs-GoodExprs f) h o short
            eq b a (l t rest e))
  ]

  parse_exprs-GoodExprs : (f : ℕ) → ExprsUpTo f (parse_exprs f)
  parse_exprs-GoodExprs zero p ts h = omega arith
  parse_exprs-GoodExprs (suc f) p ts h =
      Ensures-bind (GoodPrefix p (skip_while is_separator ts)) (λ r. GoodExprs ts r.0 r.1)
        (parse_prefix f p (skip_while is_separator ts)) (exprs_case (parse_exprs f) p)
        (parse_prefix-GoodPrefix f p (skip_while is_separator ts)
          (omega (arith, length-skip_while is_separator ts)))
        (exprs_case-GoodExprs f (parse_exprs f) p ts (parse_exprs-GoodExprs f) h)

-- With a round for each half of a fragment and one more a prefix parse ends, in an error, without an
-- expression, or with one. It takes a fragment at least and all that it takes in their order; its
-- operators in the open bind at the precedence and the next one does not, and every operator in it
-- has the operands that the precedences give it.
pub parse_prefix-Parsed :
    (f p : ℕ) (ts : Fragments) → 2 * length ts < f → Ensures (GoodPrefix p ts) (parse_prefix f p ts)
parse_prefix-Parsed f p ts fuel = parse_prefix-GoodPrefix f p ts fuel

-- What a whole document parses to.
abbrev pub GoodBlock : Fragments → Option Exprs → Type 0
GoodBlock ts none = solid ts ≡ []
GoodBlock ts (some es) = (solid ts ≡ yields es) × Bounds es

at_eof-GoodBlock :
    (ts : Fragments) (r : Exprs × Fragments)
    → GoodExprs ts r.0 r.1
    → Ensures (GoodBlock ts) (at_eof r)
unfolding yields solid
at_eof-GoodBlock ts (no_exprs, []) g = g.fragments
at_eof-GoodBlock ts (cons e es, []) g = (g.fragments ∙ append-nil (yields (cons e es)), g.bound)
at_eof-GoodBlock ts (es, t ∷ rest) g = tt

-- The parse of a document of 2 ^ 15 fragments at most, of the element types that are modelled, ends, in an error or in
-- a block. The fragments of a block are those of the document without the whitespace, delimiters and separators, in
-- their order; every bracket is closed by a terminator that starts with its end; and the operands of every operator
-- are those that the precedences give it. Without a block there are none.
pub fragment_parse-GoodBlock :
    (ts : Fragments) → length ts ≤ 32768 → Ensures (GoodBlock ts) (fragment_parse ts)
unfolding fragment_parse
fragment_parse-GoodBlock ts few =
    Ensures-bind (λ r. GoodExprs ts r.0 r.1) (GoodBlock ts) (parse_exprs (2 * length ts + 3) 0 ts)
      at_eof (parse_exprs-GoodExprs (2 * length ts + 3) 0 ts (omega arith)) (at_eof-GoodBlock ts)
