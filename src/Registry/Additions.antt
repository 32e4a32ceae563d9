-- ===== src/Registry/Additions.antt =====
-- The ways in which hemp_grammar_add_element of library/grammar.c ends.
use mathlib.Core.Path.{subst}
use hemp.Base.{ℕ, ◌≡◌, refl, sym, Option, none, some, [], ◌∷◌, Option-cases, inl, inr}
use hemp.Chars.{Str}
use hemp.Hash.Table.{HashFunction, fetch}
use hemp.Registry.Factory.{Factory, Calls, constructor}
use hemp.Registry.Grammar.{
  Token, Symbol, Grammar, Added, added, duplicate, invalid, outside, symbol_name, grammar_element,
  enter_made, new_element, add_element, run_constructor,
}
use hemp.Registry.Elements.{IsGrammar, Enters, HasNoRoot, Entered, enter_element-Entered}

module _ {ℓ} {A I P B : Type ℓ} ⦃hash : HashFunction⦄ (calls : Calls A I P)
    (construct : A → Symbol B → Option (Symbol B)) where
  -- The precedences are the element's last two fields.
  abbrev pub with_precedences : ℕ → ℕ → Symbol B → Symbol B
  with_precedences lprec rprec made = record made { lprec = lprec; rprec = rprec }

  -- What a constructor is run on: the type and the tokens that were given, and no precedence or function.
  abbrev pub unmade : Str → Option Token → Option Str → Symbol B
  unmade etype start finish = record {
    etype = etype;
    start = start;
    finish = finish;
    lprec = 0;
    rprec = 0;
    body = none;
  }

  -- There is no constructor for the type, or it declines.
  pub data NoElement (factory after : Factory A I P) (etype : Str) (start : Option Token)
      (finish : Option Str) : Type ℓ where
    no_constructor :
        constructor calls factory etype ≡ (none, after) → NoElement factory after etype start finish
    declined :
        (action : A)
        → constructor calls factory etype ≡ (some action, after)
        → construct action (unmade etype start finish) ≡ none
        → NoElement factory after etype start finish

  -- An addition that succeeds
  pub record Adds (factory after_factory : Factory A I P) (grammar after : Grammar B) (etype : Str)
      (start : Option Token) (finish : Option Str) (lprec rprec : ℕ) (symbol : Symbol B)
      : Type ℓ where
    pub free : grammar_element grammar (symbol_name etype start) ≡ none
    pub action : A
    pub lookup : constructor calls factory etype ≡ (some action, after_factory)
    pub made : Symbol B
    pub construction : construct action (unmade etype start finish) ≡ some made
    pub precedences : symbol ≡ with_precedences lprec rprec made
    pub enters : Enters grammar after (symbol_name etype start) start symbol

  -- How an addition ends, by its answer.
  unfoldable pub Ends :
      Factory A I P
      → Grammar B
      → Str
      → Option Token
      → Option Str
      → ℕ
      → ℕ
      → Added B × Factory A I P
      → Type ℓ
  Ends factory g etype start finish lprec rprec (added symbol after, f) =
      Adds factory f g after etype start finish lprec rprec symbol
  Ends factory g etype start finish lprec rprec (duplicate name, f) =
      (name ≡ symbol_name etype start)
      × (f ≡ factory)
      × (other : Symbol B) × (grammar_element g name ≡ some other)
  Ends factory g etype start finish lprec rprec (invalid what, f) =
      (what ≡ etype)
      × (grammar_element g (symbol_name etype start) ≡ none)
      × NoElement factory f etype start finish
  Ends factory g etype start finish lprec rprec (outside, f) = HasNoRoot {ℓ} start

  Entered-Ends :
      (factory f : Factory A I P) (g : Grammar B) (etype : Str) (start : Option Token)
      (finish : Option Str) (lprec rprec : ℕ) (action : A) (made : Symbol B) (answer : Added B)
      → grammar_element g (symbol_name etype start) ≡ none
      → constructor calls factory etype ≡ (some action, f)
      → construct action (unmade etype start finish) ≡ some made
      → Entered g (symbol_name etype start) start (with_precedences lprec rprec made) answer
      → Ends factory g etype start finish lprec rprec (answer, f)
  unfolding Ends Entered
  Entered-Ends factory f g etype start finish lprec rprec action made (added symbol after) free l e
        (same, enters) =
      record {
        free = free;
        action = action;
        lookup = l;
        made = made;
        construction = e;
        precedences = same;
        enters = subst (Enters g after (symbol_name etype start) start) (sym same) enters;
      }
  Entered-Ends factory f g etype start finish lprec rprec action made (duplicate name) free l e h =
      elim h [ ]
  Entered-Ends factory f g etype start finish lprec rprec action made (invalid what) free l e h =
      elim h [ ]
  Entered-Ends factory f g etype start finish lprec rprec action made outside free l e h = h

  -- Where the constructor was looked up and run
  made-Ends :
      (factory : Factory A I P) (g : Grammar B) (etype : Str) (start : Option Token)
      (finish : Option Str) (lprec rprec : ℕ) (r : Option A × Factory A I P)
      → IsGrammar g
      → grammar_element g (symbol_name etype start) ≡ none
      → constructor calls factory etype ≡ r
      → Ends factory g etype start finish lprec rprec (
        enter_made g
            (symbol_name etype start)
            start
            etype
            lprec
            rprec
            (run_constructor calls construct r.0 (unmade etype start finish)),
        r.1,
      )
  unfolding Ends grammar_element
  made-Ends factory g etype start finish lprec rprec (none, f) good free l =
      (refl, free, no_constructor l)
  made-Ends factory g etype start finish lprec rprec (some action, f) good free l =
      ran (construct action (unmade etype start finish)) refl
    where
      ran :
          (o : Option (Symbol B))
          → construct action (unmade etype start finish) ≡ o
          → Ends factory g etype start finish lprec rprec
              (enter_made g (symbol_name etype start) start etype lprec rprec o, f)
      ran none e = (refl, free, declined action l e)
      ran (some made) e =
          Entered-Ends factory f g etype start finish lprec rprec action made _ free l e
            (enter_element-Entered g etype start (with_precedences lprec rprec made) good free)

  -- An addition to a grammar, in which every token of the tree has a name in the table, ends in one of four ways.
  -- A name that the grammar has is a duplicate. A name it has not, for a type without a constructor or one that
  -- declines, is invalid; the constructor is run on the type and the tokens that were given. A start token whose first character is negative may lie outside of the roots. Else the
  -- grammar finds the element under its name and, if it has one, its start token, with its precedences; the tree
  -- never refuses the token; every name and token the grammar had keeps its element; and every token of the tree
  -- has a name again.
  pub add_element-Ends :
      (factory : Factory A I P) (g : Grammar B) (etype : Str) (start : Option Token)
      (finish : Option Str) (lprec rprec : ℕ)
      → IsGrammar g
      → Ends factory g etype start finish lprec rprec
          (add_element calls construct factory g etype start finish lprec rprec)
  unfolding add_element new_element Ends grammar_element
  add_element-Ends factory g etype start finish lprec rprec good =
      elim (Option-cases (fetch (g.elements ∷ []) (symbol_name etype start))) [
        | inl free ↦
            rw (add_element, free)
              (made-Ends factory g etype start finish lprec rprec (constructor calls factory etype)
                good free refl)
        | inr (other, e) ↦ rw (add_element, e) (refl, refl, other, e)
      ]
