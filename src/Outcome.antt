-- ===== src/Outcome.antt =====
-- How a call ends that other threads or a wrong pointer may keep from returning.
use mathlib.Core.Path.{◌≡◌, refl}

pub data Outcome {ℓ} (A : Type ℓ) : Type ℓ where
  done : A → Outcome A
  -- a second lock of a std::mutex by its owner
  deadlock : Outcome A
  -- a call through a pointer to no live object
  fault : Outcome A
  -- the fuel of the model has run out
  exhausted : Outcome A

infixl 5 ◌>>=◌
abbrev pub ◌>>=◌ {ℓ κ} : {A : Type ℓ} {B : Type κ} → Outcome A → (A → Outcome B) → Outcome B
done a >>= f = f a
deadlock >>= f = deadlock
fault >>= f = fault
exhausted >>= f = exhausted

-- Inversion of a chain that returned.
pub >>=-eq-done {ℓ κ} :
    {A : Type ℓ} {B : Type κ} (m : Outcome A) (f : A → Outcome B) {b : B}
    → (m >>= f) ≡ done b
    → (a : A) × (m ≡ done a) × (f a ≡ done b)
>>=-eq-done (done a) f h = (a, refl, h)
>>=-eq-done deadlock f h = cc
>>=-eq-done fault f h = cc
>>=-eq-done exhausted f h = cc
