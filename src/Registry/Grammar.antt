-- ===== src/Registry/Grammar.antt =====
-- A grammar of library/grammar.c: its elements by name and the tree of their start tokens, hemp_grammar_new,
-- _new_element, _add_element and _element, over the factory for elements.
use hemp.Base.{ℕ, Bool, Option, none, some, List, [], ◌∷◌}
use hemp.Chars.{Str}
use hemp.Hash.Table.{HashFunction, Table, init, store, fetch}
use hemp.Ptrees.Tree.{Ptree}
use hemp.Registry.Factory.{Factory, Calls, constructor}
use hemp.Registry.Forest.{new_ptree, ptree_store}

-- A start token is not empty: its first character apart.
abbrev pub Token : Type 0
Token = ℕ × Str

-- struct hemp_element, with the functions that its constructor chooses as `body`. A grammar that it is bound to is
-- the one that has it.
pub record Symbol {ℓ} (B : Type ℓ) : Type ℓ where
  pub etype : Str
  pub start : Option Token
  pub finish : Option Str
  pub lprec : ℕ
  pub rprec : ℕ
  pub body : Option B

-- struct hemp_grammar
pub record Grammar {ℓ} (B : Type ℓ) : Type ℓ where
  pub elements : Table (Symbol B)
  pub operators : List (Ptree (Symbol B))

-- The answer of an addition: the element, one of the errors that are thrown, or an access outside of the array of
-- roots.
pub data Added {ℓ} (B : Type ℓ) : Type ℓ where
  added : Symbol B → Grammar B → Added B
  duplicate : Str → Added B
  invalid : Str → Added B
  outside : Added B

-- `hemp_element_new`
abbrev pub blank_symbol {ℓ} : {B : Type ℓ} → Str → Option Token → Option Str → Symbol B
blank_symbol etype start finish = record {
  etype = etype;
  start = start;
  finish = finish;
  lprec = 0;
  rprec = 0;
  body = none;
}

-- `start ? start : etype`
abbrev pub symbol_name : Str → Option Token → Str
symbol_name etype (some (c, cs)) = c ∷ cs
symbol_name etype none = etype

module _ {ℓ} {B : Type ℓ} ⦃hash : HashFunction⦄ where
  -- `hemp_grammar_new`
  unfoldable pub new_grammar : Grammar B
  unfolding init new_ptree
  new_grammar = record { elements = init; operators = new_ptree }

  -- `hemp_grammar_element`; `none` is the fatal error.
  unfoldable pub grammar_element : Grammar B → Str → Option (Symbol B)
  unfolding fetch
  grammar_element grammar name = fetch (grammar.elements ∷ []) name

  -- The tree behind a store, whose answer is not looked at
  abbrev pub stored_operators :
      Grammar B → Str → Symbol B → Option (Bool × List (Ptree (Symbol B))) → Added B
  stored_operators grammar name symbol none = outside
  stored_operators grammar name symbol (some (ok, operators)) =
      added symbol (record { elements = store grammar.elements name symbol; operators = operators })

  -- An element that was made goes into the tree, if it has a start token, and into the table.
  unfoldable pub enter_element : Grammar B → Str → Option Token → Symbol B → Added B
  unfolding store ptree_store
  enter_element grammar name (some (c, cs)) symbol =
      stored_operators grammar name symbol (ptree_store grammar.operators c cs symbol)
  enter_element grammar name none symbol =
      added symbol (record grammar { elements = store grammar.elements name symbol })

  abbrev pub enter_made : Grammar B → Str → Option Token → Str → ℕ → ℕ → Option (Symbol B) → Added B
  enter_made grammar name start etype lprec rprec none = invalid etype
  enter_made grammar name start etype lprec rprec (some symbol) =
      enter_element grammar name start (record symbol { lprec = lprec; rprec = rprec })

-- What the factory calls, and what a constructor makes of a new element.
module _ {ℓ} {A I P B : Type ℓ} ⦃hash : HashFunction⦄ (calls : Calls A I P)
    (construct : A → Symbol B → Option (Symbol B)) where
  abbrev pub run_constructor : Option A → Symbol B → Option (Symbol B)
  run_constructor none symbol = none
  run_constructor (some action) symbol = construct action symbol

  -- `hemp_grammar_new_element`, with the factory behind the lookup
  unfoldable pub new_element :
      Factory A I P → Str → Option Token → Option Str → Option (Symbol B) × Factory A I P
  unfolding constructor
  new_element factory etype start finish =
      let (action, after) = constructor calls factory etype in
      (run_constructor action (blank_symbol etype start finish), after)

  -- `hemp_grammar_add_element`
  unfoldable pub add_element :
      Factory A I P → Grammar B → Str → Option Token → Option Str → ℕ → ℕ → Added B × Factory A I P
  unfolding fetch new_element enter_element
  add_element factory grammar etype start finish lprec rprec =
      let name = symbol_name etype start in
      elim (fetch (grammar.elements ∷ []) name) [
        | some other ↦ (duplicate name, factory)
        | none ↦
            let (made, after) = new_element factory etype start finish in
            (enter_made grammar name start etype lprec rprec made, after)
      ]
