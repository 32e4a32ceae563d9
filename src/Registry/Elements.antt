-- ===== src/Registry/Elements.antt =====
-- What the addition of an element does to a grammar.
use mathlib.Core.Path.{subst}
use hemp.Base.{
  ℕ, ◌≡◌, refl, sym, ap, ◌∙◌, false, Option, none, some, List, [], ◌∷◌, arith, Option-cases,
  Bool-cases, inl, inr,
}
use hemp.Chars.{Str, str_eq, str_eq_iff}
use hemp.Hash.Table.{HashFunction, store, fetch}
use hemp.Hash.Valid.{IsValid, init-IsValid, view}
use hemp.Hash.Laws.{hash_of, fetch-view, store-Updates}
use hemp.Ptrees.Tree.{Ptree, position}
use hemp.Registry.Forest.{
  find_in, IsForest, new_ptree-IsForest, find_in-new, ptree_store, Plants, ptree_store-Plants,
  ptree_fetch, ptree_fetch-find_in,
}
use hemp.Hash.Entries.{fetch-store_same, fetch-store_kept, view-store-none}
use hemp.Registry.Grammar.{
  Token, Symbol, Grammar, Added, added, duplicate, invalid, outside, symbol_name, new_grammar,
  grammar_element, enter_element,
}

-- An answer that does not come.
pub data Never {ℓ} : Type ℓ where

-- A start token whose root is not in the array.
pub record HasNoRoot {ℓ} (start : Option Token) : Type ℓ where
  pub first : ℕ
  pub rest : Str
  pub token : start ≡ some (first, rest)
  pub root : position first ≡ none

module _ {ℓ} {B : Type ℓ} ⦃hash : HashFunction⦄ where
  -- A token of the tree has a name in the table.
  pub record IsGrammar (grammar : Grammar B) : Type ℓ where
    pub valid : IsValid grammar.elements
    pub forest : IsForest grammar.operators
    pub named :
        (c : ℕ) (cs : Str)
        → view grammar.elements (hash_of (c ∷ cs)) ≡ none
        → find_in grammar.operators c cs ≡ none

  pub new_grammar-IsGrammar : IsGrammar new_grammar
  unfolding new_grammar
  new_grammar-IsGrammar = record {
    valid = init-IsValid (Symbol B);
    forest = new_ptree-IsForest;
    named = λ c cs e. find_in-new c cs;
  }

  -- The entry that a start token has in the tree.
  unfoldable pub Operator : Grammar B → Option Token → Symbol B → Type ℓ
  unfolding ptree_fetch
  Operator grammar none symbol = Unit
  Operator grammar (some (c, cs)) symbol = ptree_fetch grammar.operators c cs ≡ some (some symbol)

  -- What an addition does to a grammar.
  pub record Enters (before after : Grammar B) (name : Str) (start : Option Token)
      (symbol : Symbol B) : Type ℓ where
    pub good : IsGrammar after
    pub element : grammar_element after name ≡ some symbol
    pub operator : Operator after start symbol
    pub others :
        (other : Str) (e : Symbol B)
        → grammar_element before other ≡ some e
        → grammar_element after other ≡ some e
    pub tokens :
        (d : ℕ) (ds : Str) (e : Symbol B)
        → find_in before.operators d ds ≡ some e
        → find_in after.operators d ds ≡ some e

  -- An element without a start token
  nameless-Enters :
      (g : Grammar B) (name : Str) (symbol : Symbol B)
      → IsGrammar g
      → fetch (g.elements ∷ []) name ≡ none
      → Enters g (record g { elements = store g.elements name symbol }) name none symbol
  unfolding Operator grammar_element
  nameless-Enters g name symbol good absent = record {
    good = record {
      valid = (store-Updates g.elements name symbol good.valid).0;
      forest = good.forest;
      named = λ c cs e.
          good.named c cs
            (view-store-none g.elements name symbol (hash_of (c ∷ cs)) good.valid e).0;
    };
    element = fetch-store_same g.elements name symbol good.valid;
    operator = tt;
    others = λ other e h. fetch-store_kept g.elements name other symbol e good.valid absent h;
    tokens = λ d ds e h. h;
  }

  token-Enters :
      (g : Grammar B) (c p : ℕ) (cs : Str) (symbol : Symbol B) (operators : List (Ptree (Symbol B)))
      → IsGrammar g
      → position c ≡ some p
      → fetch (g.elements ∷ []) (c ∷ cs) ≡ none
      → find_in g.operators c cs ≡ none
      → Plants c cs symbol g.operators operators
      → Enters g
          (record { elements = store g.elements (c ∷ cs) symbol; operators = operators })
          (c ∷ cs)
          (some (c, cs))
          symbol
  unfolding Operator grammar_element
  token-Enters g c p cs symbol operators good e absent free plants = record {
    good = record {
      valid = (store-Updates g.elements (c ∷ cs) symbol good.valid).0;
      forest = plants.forest;
      named = λ d ds gone.
          let (old, other) =
            view-store-none g.elements (c ∷ cs) symbol (hash_of (d ∷ ds)) good.valid gone in
          plants.reads d ds
          ∙ rw (differs d ds (λ same. other (ap hash_of (sym same)))) (good.named d ds old);
    };
    element = fetch-store_same g.elements (c ∷ cs) symbol good.valid;
    operator =
        ptree_fetch-find_in operators c p cs symbol e
          (plants.reads c cs ∙ rw ((str_eq_iff (c ∷ cs) (c ∷ cs)).1 refl));
    others = λ other w h. fetch-store_kept g.elements (c ∷ cs) other symbol w good.valid absent h;
    tokens = λ d ds w h.
        plants.reads d ds
        ∙ rw (differs d ds (λ same. none_some (sym free ∙ subst (Reads w) same h))) h;
  }
    where
      differs : (d : ℕ) (ds : Str) → ((d ∷ ds ≡ c ∷ cs) → ⊥) → str_eq (d ∷ ds) (c ∷ cs) ≡ false
      differs d ds no_match = elim (Bool-cases (str_eq (d ∷ ds) (c ∷ cs))) [
        | inl same ↦ absurd (no_match ((str_eq_iff (d ∷ ds) (c ∷ cs)).0 same))
        | inr other ↦ other
      ]

      none_some : {w : Symbol B} → none ≡ some w → ⊥
      none_some h = ground (arith, h)

      Reads : Symbol B → Str → Type ℓ
      Reads w [] = Unit
      Reads w (d ∷ ds) = find_in g.operators d ds ≡ some w

  -- What an addition may come to.
  unfoldable pub Entered : Grammar B → Str → Option Token → Symbol B → Added B → Type ℓ
  Entered g name start symbol (added e after) = (e ≡ symbol) × Enters g after name start symbol
  Entered g name start symbol outside = HasNoRoot start
  Entered g name start symbol (duplicate other) = Never
  Entered g name start symbol (invalid etype) = Never

  pub enter_element-Entered :
      (g : Grammar B) (etype : Str) (start : Option Token) (symbol : Symbol B)
      → IsGrammar g
      → fetch (g.elements ∷ []) (symbol_name etype start) ≡ none
      → Entered g
          (symbol_name etype start)
          start
          symbol
          (enter_element g (symbol_name etype start) start symbol)
  unfolding enter_element Entered
  enter_element-Entered g etype none symbol good absent =
      (refl, nameless-Enters g etype symbol good absent)
  enter_element-Entered g etype (some (c, cs)) symbol good absent =
      elim (Option-cases (position c)) [
        | inl e ↦
            rw (enter_element, ptree_store, e)
              (record { first = c; rest = cs; token = refl; root = e })
        | inr (p, e) ↦
            let gone = sym (fetch-view g.elements (c ∷ cs) good.valid) ∙ absent in
            let free = good.named c cs gone in
            let (operators, stored, plants) =
              ptree_store-Plants g.operators c p cs symbol good.forest e free in
            rw (enter_element, stored)
              (refl, token-Enters g c p cs symbol operators good e absent free plants)
      ]
