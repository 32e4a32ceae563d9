-- ===== src/Registry/Lookups.antt =====
-- What the lookups of library/factory.c find, and that they find it again.
use hemp.Base.{ℕ, ◌≡◌, Option, none, some, List, [], ◌∷◌, ◌++◌, take}
use hemp.Chars.{Str}
use hemp.Hash.Table.{HashFunction, fetch}
use hemp.Hash.Valid.{IsValid, view}
use hemp.Registry.Splits.{Split, splits, at_each}
use hemp.Registry.Factory.{Factory, Calls, last_first, register}

-- The tables of a factory are valid.
pub record IsSound {ℓ} {A I P : Type ℓ} ⦃hash : HashFunction⦄ (factory : Factory A I P)
    : Type ℓ where
  pub constructors : IsValid factory.constructors
  pub instances : IsValid factory.instances

-- The tables are valid, and no instance is lost or replaced.
pub record Kept {ℓ} {A I P : Type ℓ} ⦃hash : HashFunction⦄ (before after : Factory A I P)
    : Type ℓ where
  pub sound : IsSound after
  pub keeps : (q : ℕ) (i : I) → view before.instances q ≡ some i → view after.instances q ≡ some i

-- The wildcard for a part of a name: `.*` behind it, cut to the buffer of 256 bytes with its NUL.
abbrev pub wildcard_of : Str → Str
wildcard_of part = take 255 (part ++ b'.' ∷ b'*' ∷ [])

module _ {ℓ} {A I P : Type ℓ} ⦃hash : HashFunction⦄ (calls : Calls A I P) where
  -- The wildcards of the parts are asked in turn, each with the factory that those before it left: one that is not
  -- registered is passed over, one that declines passes on, one that answers ends the search.
  pub data Asks (name : Str) : List Split → Factory A I P → Option A → Factory A I P → Type ℓ where
    none_left : (f : Factory A I P) → Asks name [] f none f
    passed :
        (split : Split) (splits : List Split) (f g : Factory A I P) (o : Option A)
        → fetch (f.constructors ∷ []) (wildcard_of split.left) ≡ none
        → Asks name splits f o g
        → Asks name (split ∷ splits) f o g
    declined :
        (split : Split) (splits : List Split) (f h g : Factory A I P) (w : A) (o : Option A)
        → fetch (f.constructors ∷ []) (wildcard_of split.left) ≡ some w
        → calls.expand w f name ≡ (none, h)
        → Asks name splits h o g
        → Asks name (split ∷ splits) f o g
    answered :
        (split : Split) (splits : List Split) (f g : Factory A I P) (w found : A)
        → fetch (f.constructors ∷ []) (wildcard_of split.left) ≡ some w
        → calls.expand w f name ≡ (some found, g)
        → Asks name (split ∷ splits) f (some found) g

  -- What a lookup among the wildcards comes to: what the search gives is registered.
  unfoldable pub Looks : Factory A I P → Str → Option A × Factory A I P → Type ℓ
  unfolding at_each
  Looks factory name (none, after) =
      Asks name (last_first [] (at_each b'.' name)) factory none after
  Looks factory name (some found, after) =
      (searched : Factory A I P) × Asks name (last_first [] (at_each b'.' name)) factory
        (some found) searched
      × (after ≡ register searched name found)

  -- The functions that a factory calls leave valid tables and take no instance away. A call that gives instances
  -- itself, under the same name too, does so.
  pub record KeepSound : Type ℓ where
    pub expands :
        (a : A) (f : Factory A I P) (name : Str) → IsSound f → Kept f (calls.expand a f name).1
    pub makes :
        (a : A) (f : Factory A I P) (name : Str) → IsSound f → Kept f (calls.make a f name).1
    pub loads :
        (p : P) (f : Factory A I P) (name : Str) → IsSound f → Kept f (calls.load p f name).1
