-- ===== src/Prelude/Outcome.antt =====
-- How a C++ call can end, where exceptions are not enough.
use mathlib.Core.Path.{◌≡◌, refl}

-- `terminates`: an exception leaves a `noexcept` function. `undefined`: undefined behaviour, such as
-- a read past the end of a vector.
pub data Outcome {ℓ} (A : Type ℓ) : Type ℓ where
  returns : A → Outcome A
  terminates : Outcome A
  undefined : Outcome A

module _ {ℓ κ} {A : Type ℓ} {B : Type κ} where
  infixl 5 ◌>>=◌
  abbrev pub ◌>>=◌ : Outcome A → (A → Outcome B) → Outcome B
  returns a >>= f = f a
  terminates >>= f = terminates
  undefined >>= f = undefined

  abbrev pub map_outcome : (A → B) → Outcome A → Outcome B
  map_outcome f (returns a) = returns (f a)
  map_outcome f terminates = terminates
  map_outcome f undefined = undefined

pub map_outcome-returns {ℓ κ} :
    {A : Type ℓ} {B : Type κ} (f : A → B) (o : Outcome A) {b : B}
    → map_outcome f o ≡ returns b
    → (a : A) × (o ≡ returns a) × (f a ≡ b)
map_outcome-returns f (returns a) e = (a, refl, cc)
map_outcome-returns f terminates e = cc
map_outcome-returns f undefined e = cc

pub map_outcome-undefined {ℓ κ} :
    {A : Type ℓ} {B : Type κ} (f : A → B) (o : Outcome A)
    → map_outcome f o ≡ undefined
    → o ≡ undefined
map_outcome-undefined f (returns a) e = cc
map_outcome-undefined f terminates e = cc
map_outcome-undefined f undefined e = refl

pub undefined-ne-returns {ℓ} : {A : Type ℓ} {a : A} → undefined ≡ returns a → ⊥
undefined-ne-returns h = cc

pub map_outcome-terminates {ℓ κ} :
    {A : Type ℓ} {B : Type κ} (f : A → B) (o : Outcome A)
    → map_outcome f o ≡ terminates
    → o ≡ terminates
map_outcome-terminates f (returns a) e = cc
map_outcome-terminates f terminates e = refl
map_outcome-terminates f undefined e = cc
