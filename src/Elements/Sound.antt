-- ===== src/Elements/Sound.antt =====
-- The parsers keep to their fuel, and build expressions of the fragments in their order, grouped by
-- precedence.
use hemp.Base.{
  ℕ, suc, ◌+◌, ◌*◌, ◌<◌, ◌≤◌, ◌≡◌, inl, inr, ap, sym, ◌∙◌, false, Option, none, some, [], ◌∷◌, ◌++◌,
  length, arith, Bool-cases,
}
use hemp.Elements.Outcome.{Outcome, ok, failed, no_fuel, ◌>>=◌, Ensures}
use hemp.Elements.Roles.{Fragment, skip_while, is_whitespace, terminator_matches}
use hemp.Elements.Parser.{
  Expr, Exprs, Fragments, ParsePrefix, ParsePostfix, ParseExprs, required, next_operator, close,
  brackets_parse, go_on,
}
use hemp.Elements.Trees.{
  solid, yield, yields, Above, Leaves, Bound, Bounds, skip_while-solid, length-skip_while,
  whitespace-dropped, solid-terminator, takes, Closes, matches-Closes,
}

-- The operator that comes next has left the expression as it is: it does not bind at the precedence,
-- nor at that of an operand on the right edge.
abbrev pub Ends : ℕ → Expr → Fragments → Type 0
Ends p e ts =
    (t : Fragment) (rest : Fragments)
    → next_operator ts ≡ some (t, rest)
    → (takes p t ≡ false) × Leaves t e

-- The same of an expression that may still be taken as a left operand.
abbrev pub Open : Expr → Fragments → Type 0
Open e ts = (t : Fragment) (rest : Fragments) → next_operator ts ≡ some (t, rest) → Leaves t e

-- An expression parsed from `ts` on, before `rest`.
pub record Parsed (p : ℕ) (ts : Fragments) (e : Expr) (rest : Fragments) : Type 0 where
  pub shorter : suc (length rest) ≤ length ts
  pub fragments : solid ts ≡ yield e ++ solid rest
  pub bound : Bound e
  pub above : Above p e
  pub ends : Ends p e rest

abbrev pub GoodPrefix : ℕ → Fragments → Option Expr × Fragments → Type 0
GoodPrefix p ts (none, rest) = (length rest ≤ length ts) × (solid ts ≡ solid rest)
GoodPrefix p ts (some e, rest) = Parsed p ts e rest

-- What an expression `lhs` before `ts` has grown into.
pub record Grown (p : ℕ) (lhs : Expr) (ts : Fragments) (e : Expr) (rest : Fragments) : Type 0 where
  pub shorter : length rest ≤ length ts
  pub fragments : yield lhs ++ solid ts ≡ yield e ++ solid rest
  pub bound : Bound e
  pub above : Above p e
  pub ends : Ends p e rest

pub record GoodExprs (ts : Fragments) (es : Exprs) (rest : Fragments) : Type 0 where
  pub shorter : length rest ≤ length ts
  pub fragments : solid ts ≡ yields es ++ solid rest
  pub bound : Bounds es

-- The promises of the three parsers with fuel `f`.
abbrev pub PrefixUpTo : ℕ → ParsePrefix → Type 0
PrefixUpTo f prefix =
    (p : ℕ) (ts : Fragments) → 2 * length ts < f → Ensures (GoodPrefix p ts) (prefix p ts)

abbrev pub PostfixUpTo : ℕ → ParsePostfix → Type 0
PostfixUpTo f postfix =
    (p : ℕ) (lhs : Expr) (ts : Fragments)
    → 2 * length ts < f
    → Bound lhs
    → Above p lhs
    → Open lhs ts
    → Ensures (λ r. Grown p lhs ts r.0 r.1) (postfix p lhs ts)

abbrev pub ExprsUpTo : ℕ → ParseExprs → Type 0
ExprsUpTo f exprs =
    (p : ℕ) (ts : Fragments)
    → 2 * length ts + 1 < f
    → Ensures (λ r. GoodExprs ts r.0 r.1) (exprs p ts)

pub Ensures-bind :
    {A B : Type 0} (P : A → Type 0) (Q : B → Type 0) (r : Outcome A) (f : A → Outcome B)
    → Ensures P r
    → ((a : A) → P a → Ensures Q (f a))
    → Ensures Q (r >>= f)
Ensures-bind P Q (ok a) f h k = k a h
Ensures-bind P Q failed f h k = tt
Ensures-bind P Q no_fuel f h k = h

-- An operand that must be there.
pub required-Parsed :
    (p : ℕ) (ts : Fragments) (r : Option Expr × Fragments)
    → GoodPrefix p ts r
    → Ensures (λ r. Parsed p ts r.0 r.1) (required r)
required-Parsed p ts (none, rest) h = tt
required-Parsed p ts (some e, rest) h = h

-- What brackets hold, and their terminator.
pub record GoodBrackets (t : Fragment) (ts : Fragments) (es : Exprs) (c : Fragment)
    (rest : Fragments) : Type 0 where
  pub shorter : length rest ≤ length ts
  pub fragments : solid ts ≡ yields es ++ c ∷ solid rest
  pub bound : Bounds es
  pub closes : Closes t c

close-GoodBrackets :
    (t : Fragment) (ts : Fragments) (es : Exprs) (rest : Fragments)
    → GoodExprs ts es rest
    → Ensures (λ r. GoodBrackets t ts r.0.0 r.0.1 r.1) (close t es rest)
unfolding close
close-GoodBrackets t ts es [] h = tt
close-GoodBrackets t ts es (c ∷ rest) h = elim (Bool-cases (terminator_matches c t.type.end)) [
  | inr e ↦ rw e tt
  | inl e ↦
      let closes = matches-Closes t c e in
      rw e (record {
        shorter = omega (arith, h.shorter);
        fragments = h.fragments ∙ ap (λ xs. yields es ++ xs) (solid-terminator c rest closes.role);
        bound = h.bound;
        closes = closes;
      })
]

pub Ensures-imp :
    {A : Type 0} (P Q : A → Type 0) (r : Outcome A)
    → Ensures P r
    → ((a : A) → P a → Q a)
    → Ensures Q r
Ensures-imp P Q (ok a) h k = k a h
Ensures-imp P Q failed h k = tt
Ensures-imp P Q no_fuel h k = h

pub brackets_parse-GoodBrackets :
    (f : ℕ) (exprs : ParseExprs) (t : Fragment) (ts : Fragments)
    → ExprsUpTo f exprs
    → 2 * length ts + 1 < f
    → Ensures (λ r. GoodBrackets t ts r.0.0 r.0.1 r.1) (brackets_parse exprs t ts)
unfolding brackets_parse
brackets_parse-GoodBrackets f exprs t ts promise fuel =
    Ensures-bind (λ r. GoodExprs ts r.0 r.1) _ (exprs 0 ts) _ (promise 0 ts fuel)
      (λ (es, rest) good. close-GoodBrackets t ts es (skip_while is_whitespace rest) (record {
        shorter = omega (arith, good.shorter, length-skip_while is_whitespace rest);
        fragments =
            good.fragments
            ∙ ap (λ xs. yields es ++ xs)
                (sym (skip_while-solid is_whitespace rest whitespace-dropped));
        bound = good.bound;
      }))

-- What grows from a larger operand grows from a smaller one that the larger one starts with.
pub Grown-from :
    (p : ℕ) (lhs lhs' : Expr) (ts ts' : Fragments)
    → length ts' ≤ length ts
    → yield lhs ++ solid ts ≡ yield lhs' ++ solid ts'
    → (r : Expr × Fragments) → Grown p lhs' ts' r.0 r.1
    → Grown p lhs ts r.0 r.1
Grown-from p lhs lhs' ts ts' short eq (e, rest) g = record {
  shorter = omega (arith, g.shorter);
  fragments = eq ∙ g.fragments;
  bound = g.bound;
  above = g.above;
  ends = g.ends;
}

-- A parser goes on behind an expression.
pub go_on-Parsed :
    (f : ℕ) (postfix : ParsePostfix) (p : ℕ) (ts : Fragments) (e : Expr) (rest : Fragments)
    → PostfixUpTo f postfix
    → 2 * length ts ≤ f + 1
    → suc (length rest) ≤ length ts
    → solid ts ≡ yield e ++ solid rest
    → Bound e
    → Above p e
    → Open e rest
    → Ensures (GoodPrefix p ts) (go_on postfix p (e, rest))
go_on-Parsed f postfix p ts e rest promise fuel short eq bound above ends =
    Ensures-bind (λ r. Grown p e rest r.0 r.1) (GoodPrefix p ts) (postfix p e rest) _
      (promise p e rest (omega arith) bound above ends)
      (λ (e', rest') g. record {
        shorter = omega (arith, g.shorter);
        fragments = eq ∙ g.fragments;
        bound = g.bound;
        above = g.above;
        ends = g.ends;
      })
