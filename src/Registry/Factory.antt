-- ===== src/Registry/Factory.antt =====
-- The factories of library/factory.c: the constructors that are registered by name, those that a wildcard or the
-- autoload provides, and the instances. What an action or an autoload function answers, and what it does to the
-- factory (those of library/language/hemp.c register elements), is a parameter. NULL is `none`; a table never holds it.
use hemp.Base.{Bool, true, false, Option, none, some, List, [], ◌∷◌, ◌++◌, take}
use hemp.Chars.{Str, codes}
use hemp.Hash.Table.{HashFunction, Table, init, store, fetch}
use hemp.Registry.Splits.{Split, splits}

-- struct hemp_factory, for actions, instances and autoload functions of any types
pub record Factory {ℓ} (A I P : Type ℓ) : Type ℓ where
  pub constructors : Table A
  pub instances : Table I
  pub autoload : Option P

-- The functions that a factory calls: what an action answers for a name, as a constructor and as an instance, what
-- an autoload function answers, and the factory behind each.
pub record Calls {ℓ} (A I P : Type ℓ) : Type ℓ where
  pub expand : A → Factory A I P → Str → Option A × Factory A I P
  pub make : A → Factory A I P → Str → Option I × Factory A I P
  pub load : P → Factory A I P → Str → Bool × Factory A I P

-- `snprintf (wildname, HEMP_BUFFER_SIZE, "%s.*", left)`
unfoldable pub wildname : Str → Str
wildname left = take 255 (left ++ codes ".*")

-- The list of splits by dots, from its last item on; the loop starts there. Names with more than 32768 dots, whose
-- splits do not end, are left out.
abbrev pub last_first : List Split → List Split → List Split
last_first done [] = done
last_first done (x ∷ xs) = last_first (x ∷ done) xs

abbrev pub dot_list : Option (Option (List Split)) → List Split
dot_list (some (some list)) = last_first [] list
dot_list (some none) = []
dot_list none = []

unfoldable pub dot_splits : Str → List Split
unfolding splits
dot_splits name = dot_list (splits name (codes "."))

module _ {ℓ} {A I P : Type ℓ} ⦃hash : HashFunction⦄ where
  -- `hemp_factory_new`, whose autoload is `hemp_factory_autoload`
  unfoldable pub new_factory : P → Factory A I P
  unfolding init
  new_factory autoload = record { constructors = init; instances = init; autoload = some autoload }

  -- `hemp_factory_register`; the action that the name had is freed.
  unfoldable pub register : Factory A I P → Str → A → Factory A I P
  unfolding store
  register factory name action = record factory {
    constructors = store factory.constructors name action;
  }

  -- A constructor that was found elsewhere is kept under the name.
  abbrev pub keep : Str → Option A × Factory A I P → Option A × Factory A I P
  keep name (none, factory) = (none, factory)
  keep name (some found, factory) =
      (some found, record factory { constructors = store factory.constructors name found })

  -- The instance that the run of the constructor gave is kept.
  abbrev pub keep_instance : Str → Option I × Factory A I P → Option I × Factory A I P
  keep_instance name (none, factory) = (none, factory)
  keep_instance name (some made, factory) =
      (some made, record factory { instances = store factory.instances name made })

  -- A wildcard that declines passes on to the shorter ones.
  abbrev pub wild_round :
      (Factory A I P → Option A × Factory A I P)
      → Option A × Factory A I P
      → Option A × Factory A I P
  wild_round shorter (some found, factory) = (some found, factory)
  wild_round shorter (none, factory) = shorter factory

module _ {ℓ} {A I P : Type ℓ} ⦃hash : HashFunction⦄ (calls : Calls A I P) where
  -- The loop over the wildcards
  unfoldable pub wild_loop : Str → List Split → Factory A I P → Option A × Factory A I P
  unfolding fetch wildname
  wild_loop name [] factory = (none, factory)
  wild_loop name (split ∷ splits) factory =
      elim (fetch (factory.constructors ∷ []) (wildname split.left)) [
        | none ↦ wild_loop name splits factory
        | some wildcard ↦ wild_round (wild_loop name splits) (calls.expand wildcard factory name)
      ]

  -- The part behind `lookup:`
  unfoldable pub lookup : Factory A I P → Str → Option A × Factory A I P
  unfolding wild_loop dot_splits
  lookup factory name = keep name (wild_loop name (dot_splits name) factory)

  -- What the autoload left, and once more to `lookup:`
  abbrev pub reload : Bool × Factory A I P → Str → Option A × Factory A I P
  reload (false, factory) name = (none, factory)
  reload (true, factory) name = elim (fetch (factory.constructors ∷ []) name) [
    | some found ↦ (some found, factory)
    | none ↦ lookup factory name
  ]

  abbrev pub or_autoload : Str → Option P → Option A × Factory A I P → Option A × Factory A I P
  or_autoload name autoload (some found, factory) = (some found, factory)
  or_autoload name none (none, factory) = (none, factory)
  or_autoload name (some autoload) (none, factory) = reload (calls.load autoload factory name) name

  -- `hemp_factory_constructor`
  unfoldable pub constructor : Factory A I P → Str → Option A × Factory A I P
  unfolding lookup fetch
  constructor factory name = elim (fetch (factory.constructors ∷ []) name) [
    | some found ↦ (some found, factory)
    | none ↦ or_autoload name factory.autoload (lookup factory name)
  ]

  abbrev pub construct : Str → Option A × Factory A I P → Option I × Factory A I P
  construct name (none, factory) = (none, factory)
  construct name (some action, factory) = keep_instance name (calls.make action factory name)

  -- `hemp_factory_instance`
  unfoldable pub instance_of : Factory A I P → Str → Option I × Factory A I P
  unfolding constructor fetch store
  instance_of factory name = elim (fetch (factory.instances ∷ []) name) [
    | some made ↦ (some made, factory)
    | none ↦ construct name (constructor factory name)
  ]
