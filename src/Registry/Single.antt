-- ===== src/Registry/Single.antt =====
-- The instance that a call gave stays the one of its name, whatever is registered and made behind it.
use mathlib.Core.Path.{subst}
use hemp.Base.{
  List, ◌≡◌, sym, ◌∙◌, Bool, true, false, Option, none, some, [], ◌∷◌, ◌==◌, arith, Option-cases,
  Bool-cases, inl, inr, ==_iff,
}
use hemp.Chars.{Str}
use hemp.Hash.Table.{HashFunction, fetch}
use hemp.Hash.Valid.{view}
use hemp.Hash.Entries.{fetch-store_same}
use hemp.Hash.Laws.{hash_of, fetch-view, store-Updates}
use hemp.Registry.Splits.{Split}
use hemp.Registry.Factory.{
  Factory, Calls, wildname, wild_round, wild_loop, dot_splits, register, keep, lookup, reload,
  or_autoload, constructor, keep_instance, construct, instance_of,
}
use hemp.Registry.Lookups.{IsSound, Kept, KeepSound}

module _ {ℓ} {A I P : Type ℓ} ⦃hash : HashFunction⦄ (calls : Calls A I P) where
  -- The calls on a factory, one behind the other.
  pub data Reaches : Factory A I P → Factory A I P → Type ℓ where
    done : (f : Factory A I P) → Reaches f f
    registers :
        (f g : Factory A I P) (name : Str) (action : A)
        → Reaches (register f name action) g
        → Reaches f g
    constructs :
        (f g : Factory A I P) (name : Str) → Reaches (constructor calls f name).1 g → Reaches f g
    gives :
        (f g : Factory A I P) (name : Str) → Reaches (instance_of calls f name).1 g → Reaches f g

  Kept-same : (f : Factory A I P) → IsSound f → Kept f f
  Kept-same f sound = record { sound = sound; keeps = λ q i h. h }

  register-Kept :
      (f : Factory A I P) (name : Str) (action : A) → IsSound f → Kept f (register f name action)
  unfolding register
  register-Kept f name action sound = record {
    sound = record {
      constructors = (store-Updates f.constructors name action sound.constructors).0;
      instances = sound.instances;
    };
    keeps = λ q i h. h;
  }

  Kept-trans : (f g h : Factory A I P) → Kept f g → Kept g h → Kept f h
  Kept-trans f g h a b = record { sound = b.sound; keeps = λ q i e. b.keeps q i (a.keeps q i e) }

  keep-Kept :
      (f : Factory A I P) (name : Str) (r : Option A × Factory A I P)
      → Kept f r.1
      → Kept f (keep name r).1
  unfolding register
  keep-Kept f name (none, g) k = k
  keep-Kept f name (some found, g) k = Kept-trans f g _ k (register-Kept g name found k.sound)

module _ {ℓ} {A I P : Type ℓ} ⦃hash : HashFunction⦄ (calls : Calls A I P)
    (keep_sound : KeepSound calls) where
  wild_loop-Kept :
      (name : Str) (splits : List Split) (f : Factory A I P)
      → IsSound f
      → Kept f (wild_loop calls name splits f).1
  unfolding wild_loop
  wild_loop-Kept name [] f sound = Kept-same calls f sound
  wild_loop-Kept name (split ∷ splits) f sound =
      elim (Option-cases (fetch (f.constructors ∷ []) (wildname split.left))) [
        | inl e ↦ rw (wild_loop, e) (wild_loop-Kept name splits f sound)
        | inr (w, e) ↦
            rw (wild_loop, e)
              (asked (wild_loop-Kept name splits) (calls.expand w f name)
                (keep_sound.expands w f name sound))
      ]
    where
      asked :
          ((h : Factory A I P) → IsSound h → Kept h (wild_loop calls name splits h).1)
          → (r : Option A × Factory A I P) → Kept f r.1
          → Kept f (wild_round (wild_loop calls name splits) r).1
      asked ih (none, h) k = Kept-trans calls f h _ k (ih h k.sound)
      asked ih (some found, h) k = k

  lookup-Kept : (f : Factory A I P) (name : Str) → IsSound f → Kept f (lookup calls f name).1
  unfolding lookup
  lookup-Kept f name sound =
      keep-Kept calls f name _ (wild_loop-Kept name (dot_splits name) f sound)

  reload-Kept :
      (ok : Bool) (f : Factory A I P) (name : Str)
      → IsSound f
      → Kept f (reload calls (ok, f) name).1
  reload-Kept false f name sound = Kept-same calls f sound
  reload-Kept true f name sound = elim (Option-cases (fetch (f.constructors ∷ []) name)) [
    | inl e ↦ rw (reload, e) (lookup-Kept f name sound)
    | inr (found, e) ↦ rw (reload, e) (Kept-same calls f sound)
  ]

  or_autoload-Kept :
      (f : Factory A I P) (name : Str) (autoload : Option P) (r : Option A × Factory A I P)
      → Kept f r.1
      → Kept f (or_autoload calls name autoload r).1
  or_autoload-Kept f name autoload (some found, g) k = k
  or_autoload-Kept f name none (none, g) k = k
  or_autoload-Kept f name (some p) (none, g) k =
      let loaded = keep_sound.loads p g name k.sound in
      Kept-trans calls f g _ k (
        Kept-trans calls g (calls.load p g name).1 _ loaded
          (reload-Kept (calls.load p g name).0 (calls.load p g name).1 name loaded.sound))

  constructor-Kept :
      (f : Factory A I P) (name : Str) → IsSound f → Kept f (constructor calls f name).1
  unfolding constructor
  constructor-Kept f name sound = elim (Option-cases (fetch (f.constructors ∷ []) name)) [
    | inl e ↦ rw (constructor, e) (or_autoload-Kept f name f.autoload _ (lookup-Kept f name sound))
    | inr (found, e) ↦ rw (constructor, e) (Kept-same calls f sound)
  ]

  -- An instance that is stored under a name without one
  keep_instance-Kept :
      (f : Factory A I P) (name : Str) (r : Option I × Factory A I P)
      → view f.instances (hash_of name) ≡ none
      → Kept f r.1
      → Kept f (keep_instance name r).1
  keep_instance-Kept f name (none, g) absent k = k
  keep_instance-Kept f name (some made, g) absent k =
      let (valid, reads, _, _) = store-Updates g.instances name made k.sound.instances in
      record {
        sound = record { constructors = k.sound.constructors; instances = valid };
        keeps = λ q i e. elim (Bool-cases (q == hash_of name)) [
          | inl same ↦ absurd (
              none_some i (
                sym absent
                ∙ subst (λ r. view f.instances r ≡ some i) ((==_iff q (hash_of name)).0 same) e))
          | inr other ↦ reads q ∙ rw (other) (k.keeps q i e)
        ];
      }
    where
      none_some : (i : I) → none ≡ some i → ⊥
      none_some i e = ground (arith, e)

  construct-Kept :
      (f : Factory A I P) (name : Str) (r : Option A × Factory A I P)
      → view f.instances (hash_of name) ≡ none
      → Kept f r.1
      → Kept f (construct calls name r).1
  construct-Kept f name (none, g) absent k = k
  construct-Kept f name (some action, g) absent k =
      keep_instance-Kept f name (calls.make action g name) absent
        (Kept-trans calls f g _ k (keep_sound.makes action g name k.sound))

  instance_of-Kept :
      (f : Factory A I P) (name : Str) → IsSound f → Kept f (instance_of calls f name).1
  unfolding instance_of
  instance_of-Kept f name sound = elim (Option-cases (fetch (f.instances ∷ []) name)) [
    | inl e ↦
        rw (instance_of, e)
          (construct-Kept f name _ (sym (fetch-view f.instances name sound.instances) ∙ e)
            (constructor-Kept f name sound))
    | inr (made, e) ↦ rw (instance_of, e) (Kept-same calls f sound)
  ]

  Reaches-Kept : (f g : Factory A I P) → Reaches calls f g → IsSound f → Kept f g
  Reaches-Kept f g (done h) sound = Kept-same calls h sound
  Reaches-Kept f g (registers h i name action r) sound =
      let k = register-Kept calls h name action sound in
      Kept-trans calls h _ i k (Reaches-Kept _ i r k.sound)
  Reaches-Kept f g (constructs h i name r) sound =
      let k = constructor-Kept h name sound in Kept-trans calls h _ i k (Reaches-Kept _ i r k.sound)
  Reaches-Kept f g (gives h i name r) sound =
      let k = instance_of-Kept h name sound in Kept-trans calls h _ i k (Reaches-Kept _ i r k.sound)

  -- The instance that a call gives is in the table it leaves.
  unfoldable HasInstance : Str → Option I × Factory A I P → Type ℓ
  unfolding fetch
  HasInstance name (none, f) = Unit
  HasInstance name (some made, f) = fetch (f.instances ∷ []) name ≡ some made

  construct-HasInstance :
      (name : Str) (r : Option A × Factory A I P)
      → IsSound r.1
      → HasInstance name (construct calls name r)
  unfolding HasInstance
  construct-HasInstance name (none, f) sound = tt
  construct-HasInstance name (some action, f) sound =
      kept_made (calls.make action f name) (keep_sound.makes action f name sound).sound
    where
      kept_made :
          (r : Option I × Factory A I P) → IsSound r.1 → HasInstance name (keep_instance name r)
      kept_made (none, g) good = tt
      kept_made (some made, g) good = fetch-store_same g.instances name made good.instances

  instance_of-HasInstance :
      (f : Factory A I P) (name : Str) → IsSound f → HasInstance name (instance_of calls f name)
  unfolding instance_of HasInstance
  instance_of-HasInstance f name sound = elim (Option-cases (fetch (f.instances ∷ []) name)) [
    | inl e ↦
        rw (instance_of, e) (construct-HasInstance name _ (constructor-Kept f name sound).sound)
    | inr (made, e) ↦ rw (instance_of, e) e
  ]

  -- For a factory with valid tables, whose actions and autoload function keep them valid and take no instance away
  -- (they may register, look up and make others, under the same name too), and a call that gave an instance: whatever
  -- is registered, looked up and made behind it, under any names, a later call for the name gives the same instance
  -- and changes nothing.
  pub instance_of-single :
      (f after later : Factory A I P) (name : Str) (made : I)
      → IsSound f
      → instance_of calls f name ≡ (some made, after)
      → Reaches calls after later
      → instance_of calls later name ≡ (some made, later)
  unfolding instance_of HasInstance
  instance_of-single f after later name made sound e r =
      let kept : Kept f after = subst (λ o. Kept f o.1) e (instance_of-Kept f name sound) in
      let has : fetch (after.instances ∷ []) name ≡ some made =
        subst (HasInstance name) e (instance_of-HasInstance f name sound) in
      let then_kept = Reaches-Kept after later r kept.sound in
      let has_later : fetch (later.instances ∷ []) name ≡ some made =
        fetch-view later.instances name then_kept.sound.instances
        ∙ then_kept.keeps (hash_of name) made
            (sym (fetch-view after.instances name kept.sound.instances) ∙ has) in
      rw (instance_of, has_later)
