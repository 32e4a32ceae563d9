-- ===== src/Registry/Tests.antt =====
-- Runs of factories and grammars on a few names, and the theorems at them.
use hemp.Base.{
  ℕ, ◌+◌, ◌≡◌, refl, false, true, Bool, arith, ◌≤◌, Option, none, some, [], length, set, ltb,
}
use hemp.Chars.{codes, after_all}
use hemp.Hash.Jenkins.{jenkins32}
use hemp.Hash.Table.{HashFunction, jenkins, init, wider, store, fetch}
use hemp.Hash.Valid.{init-IsValid}
use hemp.Hash.Laws.{store-Updates}
use hemp.Registry.Splits.{splits, unless_empty, at_each, splits-at_each}
use hemp.Registry.Factory.{
  Factory, Calls, new_factory, register, lookup, wildname, wild_loop, dot_splits, constructor,
  instance_of,
}
use hemp.ListType.Items
use hemp.Ptrees.Tree
use hemp.Ptrees.Tree.{empty, node}
use hemp.Registry.Forest.{new_ptree}
use hemp.Registry.Grammar.{Symbol, Grammar, added, duplicate, new_grammar, add_element}
use hemp.Registry.Elements.{new_grammar-IsGrammar}
use hemp.Registry.Additions.{Ends, add_element-Ends}
use hemp.Registry.Lookups.{IsSound, Kept, KeepSound, Looks}
use hemp.Registry.Single.{Reaches, done, registers, instance_of-single}

instance abbrev chosen : HashFunction
chosen = jenkins

program : Unit {0}
unfolding Items.grow Items.put Items.poke Items.resized Items.doubled after_all jenkins32 wider init
    store fetch splits at_each new_factory register lookup wild_loop dot_splits wildname constructor
    instance_of Looks new_ptree new_grammar add_element
program = tt

two_dots : length (at_each b'.' (codes "a.b.c")) ≤ 32768
unfolding program
two_dots = omega arith

splits-at_each_example :
    splits (codes "a.b.c") (codes ".") ≡ some (unless_empty (at_each b'.' (codes "a.b.c")))
splits-at_each_example = splits-at_each b'.' (codes "a.b.c") two_dots

-- Actions and instances are numbers; the action 9 declines, the others know each name.
abbrev answer : Bool → ℕ → Factory ℕ ℕ (Unit {0}) → Option ℕ × Factory ℕ ℕ (Unit {0})
answer true action f = (some (action + 100), f)
answer false action f = (none, f)

-- The autoload knows no name.
abbrev calls : Calls ℕ ℕ (Unit {0})
calls = record {
  expand = λ action f name. answer (ltb action 9) action f;
  make = λ action f name. (some (length name + action), f);
  load = λ p f name. (false, f);
}

-- Wildcards for `a` and for `a.b`; the longer one declines.
abbrev factory : Factory ℕ ℕ (Unit {0})
factory = register (register (new_factory tt) (codes "a.*") 1) (codes "a.b.*") 9

found : constructor calls factory (codes "a.b.c") ≡ (some 101, register factory (codes "a.b.c") 101)
unfolding program
found = refl

-- The same action, under the instance's name
abbrev with_found : Factory ℕ ℕ (Unit {0})
with_found = register factory (codes "a.b.c") 101

abbrev with_made : Factory ℕ ℕ (Unit {0})
with_made = record with_found { instances = store init (codes "a.b.c") 106 }

made : instance_of calls factory (codes "a.b.c") ≡ (some 106, with_made)
unfolding program
made = refl

same-Kept : (f : Factory ℕ ℕ (Unit {0})) → IsSound f → Kept f f
same-Kept f sound = record { sound = sound; keeps = λ q i h. h }

calls-KeepSound : KeepSound calls
calls-KeepSound = record {
  expands = λ a f name sound. either (ltb a 9) a f sound;
  makes = λ a f name sound. same-Kept f sound;
  loads = λ p f name sound. same-Kept f sound;
}
  where
    either : (b : Bool) (a : ℕ) (f : Factory ℕ ℕ (Unit {0})) → IsSound f → Kept f (answer b a f).1
    either true a f sound = same-Kept f sound
    either false a f sound = same-Kept f sound

factory-IsSound : IsSound factory
unfolding new_factory register
factory-IsSound = record {
  constructors =
      (store-Updates _ (codes "a.b.*") 9 (store-Updates init (codes "a.*") 1 (init-IsValid ℕ)).0).0;
  instances = init-IsValid ℕ;
}

-- A new constructor for the name does not change the instance.
abbrev registered_again : Factory ℕ ℕ (Unit {0})
registered_again = register with_made (codes "a.b.c") 7

again-Reaches : Reaches calls with_made registered_again
again-Reaches = registers with_made registered_again (codes "a.b.c") 7 (done registered_again)

instance_of-single_example :
    instance_of calls registered_again (codes "a.b.c") ≡ (some 106, registered_again)
instance_of-single_example =
    instance_of-single calls calls-KeepSound factory with_made registered_again (codes "a.b.c") 106
      factory-IsSound made again-Reaches

-- A constructor that marks the element with the number of its action, and the element types of a grammar
abbrev mark_action : ℕ → Symbol ℕ → Option (Symbol ℕ)
mark_action action symbol = some (record symbol { body = some action })

abbrev types : Factory ℕ ℕ (Unit {0})
types = register (new_factory tt) (codes "hemp.number.plus") 3

abbrev plus : Symbol ℕ
plus = record {
  etype = codes "hemp.number.plus";
  start = some (b'+', []);
  finish = none;
  lprec = 50;
  rprec = 50;
  body = some 3;
}

abbrev with_plus : Grammar ℕ
with_plus = record {
  elements = store init (codes "+") plus;
  operators = set new_ptree 3 (node b'+' [] (some plus) empty empty empty);
}

add_plus :
    add_element calls mark_action types new_grammar
      (codes "hemp.number.plus")
      (some (b'+', []))
      none
      50
      50
    ≡ (added plus with_plus, types)
unfolding program Tree.store
add_plus = refl

add_twice :
    add_element calls mark_action types with_plus
      (codes "hemp.number.plus")
      (some (b'+', []))
      none
      50
      50
    ≡ (duplicate (codes "+"), types)
unfolding program
add_twice = refl

add_element-Ends_example :
    Ends calls mark_action types new_grammar
      (codes "hemp.number.plus")
      (some (b'+', []))
      none
      50
      50
      (add_element calls mark_action types new_grammar
        (codes "hemp.number.plus")
        (some (b'+', []))
        none
        50
        50)
add_element-Ends_example =
    add_element-Ends calls mark_action types new_grammar (codes "hemp.number.plus")
      (some (b'+', [])) none 50 50 new_grammar-IsGrammar
