-- ===== src/Base/Suffixes.antt =====
-- What is left of a list behind what was taken of it.
use Prim.Native.Nat.{◌≤◌}
use mathlib.Core.Path.{◌≡◌, refl, sym, ap, ◌∙◌}
use mathlib.Core.List.{List, [], ◌∷◌, ◌++◌, append_assoc}
use native.Mathlib.Omega.{arith}
use hemp.Base.Lists.{length, length-append}

-- What is left of a source is a suffix of it.
pub record Left {ℓ} {A : Type ℓ} (src rest : List A) : Type ℓ where
  pub taken : List A
  pub source : src ≡ taken ++ rest

module _ {ℓ} {A : Type ℓ} where
  pub Left-same : (src : List A) → Left src src
  Left-same src = record { taken = []; source = refl }

  pub Left-more : (c : A) (src rest : List A) → Left src rest → Left (c ∷ src) rest
  Left-more c src rest l = record { taken = c ∷ l.taken; source = ap (λ s. c ∷ s) l.source }

  pub Left-Left : (src mid rest : List A) → Left src mid → Left mid rest → Left src rest
  Left-Left src mid rest l m = record {
    taken = l.taken ++ m.taken;
    source = l.source ∙ ap (λ s. l.taken ++ s) m.source ∙ sym (append_assoc l.taken m.taken rest);
  }

  pub length-Left : (src rest : List A) → Left src rest → length rest ≤ length src
  length-Left src rest l = ground (arith, ap length l.source, length-append l.taken rest)
