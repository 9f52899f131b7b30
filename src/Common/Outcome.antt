-- ===== src/Common/Outcome.antt =====
-- The outcome of code that may panic, and of loops that are given fuel.
use beego.Common.{◌≡◌, refl}

-- `fuel_out` is the outcome of a loop that did not end in the rounds it was given.
pub data Outcome {ℓ} (E : Type 0) (A : Type ℓ) : Type ℓ where
  ok : A → Outcome E A
  panic : E → Outcome E A
  fuel_out : Outcome E A

infixl 5 ◌>>=◌
abbrev pub ◌>>=◌ {ℓ κ} :
    {E : Type 0} {A : Type ℓ} {B : Type κ} → Outcome E A → (A → Outcome E B) → Outcome E B
ok a >>= f = f a
panic e >>= f = panic e
fuel_out >>= f = fuel_out

-- A chain that succeeds has succeeded at its first step.
pub >>=-eq-ok {ℓ κ} :
    {E : Type 0} {A : Type ℓ} {B : Type κ} (first : Outcome E A) (next : A → Outcome E B) {last : B}
    → (first >>= next) ≡ ok last
    → (mid : A) × (first ≡ ok mid) × (next mid ≡ ok last)
>>=-eq-ok fuel_out next ends = cc
>>=-eq-ok (panic _) next ends = cc
>>=-eq-ok (ok mid) next ends = (mid, refl, ends)

pub ok-injective {ℓ} :
    {E : Type 0} {A : Type ℓ} {a b : A} → ◌≡◌ {A = Outcome E A} (ok a) (ok b) → a ≡ b
ok-injective h = cc
