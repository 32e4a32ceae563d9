-- ===== src/Elements/Calls.antt =====
-- The calls of the prefix and postfix functions, and the parsers that they make up.
use hemp.Base.{
  ℕ, suc, ◌+◌, ◌*◌, ◌≤◌, ◌≡◌, refl, ap, sym, ◌∙◌, true, Option, none, some, [], ◌∷◌, ◌++◌, length,
  arith, append_assoc,
}
use hemp.Elements.Outcome.{◌>>=◌, Ensures}
use hemp.Elements.Roles.{
  Fragment, Prefix, Postfix, parse_prefix_of, no_prefix, operand_prefix, operator_prefix,
  space_prefix, brackets_prefix, no_postfix, operator_postfix, left_postfix, right_postfix,
  space_postfix, parens_postfix,
}
use hemp.Elements.Parser.{
  Expr, operand, unary, postunary, binary, brackets, apply, Fragments, ParsePrefix, ParsePostfix,
  ParseExprs, required, brackets_parse, postfix_call, prefix_call,
}
use hemp.Elements.Trees.{
  solid, yield, yields, Above, Leaves, Bound, takes_left, solid-kept, solid-white, prefix-kept,
  prefix-dropped, calls, passes, takes,
}
use hemp.Elements.Sound.{
  Parsed, GoodPrefix, Grown, GoodBrackets, PrefixUpTo, PostfixUpTo, ExprsUpTo, Ensures-bind,
  Ensures-imp, required-Parsed, brackets_parse-GoodBrackets, Grown-from, go_on-Parsed,
}

-- A fragment that is passed over.
passed-GoodPrefix :
    (p : ℕ) (t : Fragment) (ts : Fragments)
    → solid (t ∷ ts) ≡ solid ts
    → (r : Option Expr × Fragments) → GoodPrefix p ts r
    → GoodPrefix p (t ∷ ts) r
passed-GoodPrefix p t ts eq (none, rest) g = (omega (arith, g.0), eq ∙ g.1)
passed-GoodPrefix p t ts eq (some e, rest) g = record {
  shorter = omega (arith, g.shorter);
  fragments = eq ∙ g.fragments;
  bound = g.bound;
  above = g.above;
  ends = g.ends;
}

-- The call of a prefix function.
pub prefix_call-GoodPrefix :
    (k : Prefix) (f : ℕ) (prefix : ParsePrefix) (postfix : ParsePostfix) (exprs : ParseExprs)
    (p : ℕ) (t : Fragment) (ts : Fragments)
    → parse_prefix_of t.type.role ≡ k
    → PrefixUpTo f prefix
    → PostfixUpTo f postfix
    → ExprsUpTo f exprs
    → 2 * length ts + 2 ≤ f
    → Ensures (GoodPrefix p (t ∷ ts)) (prefix_call k prefix postfix exprs p t ts)
unfolding prefix_call yield Bound Above Leaves
prefix_call-GoodPrefix no_prefix f prefix postfix exprs p t ts e hp hq hr fuel = (omega arith, refl)
prefix_call-GoodPrefix operand_prefix f prefix postfix exprs p t ts e hp hq hr fuel =
    go_on-Parsed f postfix p (t ∷ ts) (operand t) ts hq (omega arith) (omega arith)
      (solid-kept t ts (prefix-kept t.type.role (ap calls e))) tt tt (λ _ _ _. tt)
prefix_call-GoodPrefix operator_prefix f prefix postfix exprs p t ts e hp hq hr fuel =
    let kept = solid-kept t ts (prefix-kept t.type.role (ap calls e)) in
    Ensures-bind (λ r. Parsed t.type.rprec ts r.0 r.1) (GoodPrefix p (t ∷ ts))
      (prefix t.type.rprec ts >>= required) _
      (Ensures-bind (GoodPrefix t.type.rprec ts) _ (prefix t.type.rprec ts) required
        (hp t.type.rprec ts (omega arith)) (required-Parsed t.type.rprec ts))
      (λ (x, rest) g.
        go_on-Parsed f postfix p (t ∷ ts) (unary t x) rest hq (omega arith)
          (omega (arith, g.shorter)) (kept ∙ ap (λ xs. t ∷ xs) g.fragments) (g.bound, g.above) tt
          g.ends)
prefix_call-GoodPrefix space_prefix f prefix postfix exprs p t ts e hp hq hr fuel =
    Ensures-imp (GoodPrefix p ts) (GoodPrefix p (t ∷ ts)) (prefix p ts) (hp p ts (omega arith))
      (passed-GoodPrefix p t ts (solid-white t ts (prefix-dropped t.type.role (ap passes e))))
prefix_call-GoodPrefix brackets_prefix f prefix postfix exprs p t ts e hp hq hr fuel =
    let kept = solid-kept t ts (prefix-kept t.type.role (ap calls e)) in
    Ensures-bind (λ r. GoodBrackets t ts r.0.0 r.0.1 r.1) (GoodPrefix p (t ∷ ts))
      (brackets_parse exprs t ts) _ (brackets_parse-GoodBrackets f exprs t ts hr (omega arith))
      (λ ((es, c), rest) g.
        go_on-Parsed f postfix p (t ∷ ts) (brackets t es c) rest hq (omega arith)
          (omega (arith, g.shorter))
          (kept
            ∙ ap (λ xs. t ∷ xs)
                (g.fragments ∙ sym (append_assoc (yields es) (c ∷ []) (solid rest))))
          (g.bound, g.closes) tt (λ _ _ _. tt))

-- A binary operator that takes takes its right operand at its own precedence.
binary-Grown :
    (f : ℕ) (prefix : ParsePrefix) (postfix : ParsePostfix) (p : ℕ) (lhs : Expr) (ts : Fragments)
    (t : Fragment) (rest : Fragments)
    → PrefixUpTo f prefix
    → PostfixUpTo f postfix
    → 2 * length rest + 2 ≤ f
    → suc (length rest) ≤ length ts
    → solid ts ≡ t ∷ solid rest
    → Bound lhs
    → (takes p t ≡ true) × Above p lhs
    → Leaves t lhs
    → Ensures
        (λ r. Grown p lhs ts r.0 r.1)
        (prefix t.type.lprec rest >>= required >>= λ (rhs, rest').
          postfix p (binary t lhs rhs) rest')
unfolding yield Bound Above Leaves
binary-Grown f prefix postfix p lhs ts t rest hp hq fuel short eq b a l =
    Ensures-bind (λ r. Parsed t.type.lprec rest r.0 r.1) (λ r. Grown p lhs ts r.0 r.1)
      (prefix t.type.lprec rest >>= required) _
      (Ensures-bind (GoodPrefix t.type.lprec rest) _ (prefix t.type.lprec rest) required
        (hp t.type.lprec rest (omega arith)) (required-Parsed t.type.lprec rest))
      (λ (rhs, rest') g.
        Ensures-imp _ (λ r. Grown p lhs ts r.0 r.1) (postfix p (binary t lhs rhs) rest')
          (hq p (binary t lhs rhs) rest' (omega (arith, g.shorter)) (b, g.bound, l, g.above) a
            g.ends)
          (Grown-from p lhs (binary t lhs rhs) ts rest' (omega (arith, g.shorter)) (
            ap (λ xs. yield lhs ++ xs) (eq ∙ ap (λ xs. t ∷ xs) g.fragments)
            ∙ sym (append_assoc (yield lhs) (t ∷ yield rhs) (solid rest')))))

-- The call of a postfix function at an operator that takes.
pub postfix_call-Grown :
    (k : Postfix) (f : ℕ) (prefix : ParsePrefix) (postfix : ParsePostfix) (exprs : ParseExprs)
    (p : ℕ) (lhs : Expr) (ts : Fragments) (t : Fragment) (rest : Fragments)
    → takes_left k ≡ true
    → PrefixUpTo f prefix
    → PostfixUpTo f postfix
    → ExprsUpTo f exprs
    → 2 * length rest + 2 ≤ f
    → suc (length rest) ≤ length ts
    → solid ts ≡ t ∷ solid rest
    → Bound lhs
    → (takes p t ≡ true) × Above p lhs
    → Leaves t lhs
    → Ensures (λ r. Grown p lhs ts r.0 r.1) (postfix_call k prefix postfix exprs p lhs t rest)
unfolding postfix_call yield Bound Above Leaves
postfix_call-Grown no_postfix f prefix postfix exprs p lhs ts t rest k hp hq hr fuel short eq b a
      l =
    ground arith
postfix_call-Grown space_postfix f prefix postfix exprs p lhs ts t rest k hp hq hr fuel short eq b a
      l =
    ground arith
postfix_call-Grown operator_postfix f prefix postfix exprs p lhs ts t rest k hp hq hr fuel short eq
      b a l =
    Ensures-imp _ (λ r. Grown p lhs ts r.0 r.1) (postfix p (postunary t lhs) rest)
      (hq p (postunary t lhs) rest (omega arith) (b, l) a (λ _ _ _. tt))
      (Grown-from p lhs (postunary t lhs) ts rest (omega arith)
        (ap (λ xs. yield lhs ++ xs) eq ∙ sym (append_assoc (yield lhs) (t ∷ []) (solid rest))))
postfix_call-Grown left_postfix f prefix postfix exprs p lhs ts t rest k hp hq hr fuel short eq b a
      l =
    binary-Grown f prefix postfix p lhs ts t rest hp hq fuel short eq b a l
postfix_call-Grown right_postfix f prefix postfix exprs p lhs ts t rest k hp hq hr fuel short eq b a
      l =
    binary-Grown f prefix postfix p lhs ts t rest hp hq fuel short eq b a l
postfix_call-Grown parens_postfix f prefix postfix exprs p lhs ts t rest k hp hq hr fuel short eq b
      a l =
    Ensures-bind (λ r. GoodBrackets t rest r.0.0 r.0.1 r.1) (λ r. Grown p lhs ts r.0 r.1)
      (brackets_parse exprs t rest) _ (brackets_parse-GoodBrackets f exprs t rest hr (omega arith))
      (λ ((es, c), rest') g.
        Ensures-imp _ (λ r. Grown p lhs ts r.0 r.1) (postfix p (apply lhs t es c) rest')
          (hq p (apply lhs t es c) rest' (omega (arith, g.shorter)) (b, l, g.bound, g.closes) a
            (λ _ _ _. tt))
          (Grown-from p lhs (apply lhs t es c) ts rest' (omega (arith, g.shorter)) (
            ap (λ xs. yield lhs ++ xs)
              (eq
                ∙ ap (λ xs. t ∷ xs)
                    (g.fragments ∙ sym (append_assoc (yields es) (c ∷ []) (solid rest'))))
            ∙ sym (append_assoc (yield lhs) (t ∷ (yields es ++ c ∷ [])) (solid rest')))))
