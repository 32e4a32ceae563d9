-- ===== src/Elements/Outcome.antt =====
-- What a parse comes to. `failed` is `hemp_fatal` or a thrown parse error; `no_fuel` is nothing that
-- the program does.

pub data Outcome {ℓ} (A : Type ℓ) : Type ℓ where
  ok : A → Outcome A
  failed : Outcome A
  no_fuel : Outcome A

module _ {ℓ κ} {A : Type ℓ} {B : Type κ} where
  infixl 5 ◌>>=◌
  abbrev pub ◌>>=◌ : Outcome A → (A → Outcome B) → Outcome B
  ok a >>= f = f a
  failed >>= f = failed
  no_fuel >>= f = no_fuel

-- The fuel sufficed, and what was parsed, if anything, satisfies `P`.
abbrev pub Ensures {ℓ} : {A : Type ℓ} → (A → Type 0) → Outcome A → Type 0
Ensures P (ok a) = P a
Ensures P failed = Unit
Ensures P no_fuel = ⊥
