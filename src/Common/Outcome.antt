-- ===== src/Common/Outcome.antt =====
-- What a call of Python ends in: a value, or an exception of those in `E`.
use mathlib.Core.Path.{◌≡◌, refl}
use mathlib.Core.Logic.{◌⊎◌, inl, inr}

pub data Outcome {ℓ} (E : Type 0) (A : Type ℓ) : Type ℓ where
  raised : E → Outcome E A
  returned : A → Outcome E A

infixl 5 ◌>>=◌
abbrev pub ◌>>=◌ {ℓ κ} :
    {E : Type 0} {A : Type ℓ} {B : Type κ} → Outcome E A → (A → Outcome E B) → Outcome E B
raised error >>= rest = raised error
returned value >>= rest = rest value

-- A chain that returns has returned from its first call.
pub >>=-eq-returned {ℓ κ} :
    {E : Type 0} {A : Type ℓ} {B : Type κ} (call : Outcome E A) (rest : A → Outcome E B)
    {result : B}
    → (call >>= rest) ≡ returned result
    → (value : A) × (call ≡ returned value) × (rest value ≡ returned result)
>>=-eq-returned (raised error) rest same = cc
>>=-eq-returned (returned value) rest same = (value, refl, same)

-- To split on the outcome of a call and keep the equation.
pub Outcome-cases {ℓ} :
    {E : Type 0} {A : Type ℓ} (call : Outcome E A)
    → ((error : E) × (call ≡ raised error)) ⊎ ((value : A) × (call ≡ returned value))
Outcome-cases (raised error) = inl (error, refl)
Outcome-cases (returned value) = inr (value, refl)

pub returned-injective {ℓ} :
    {E : Type 0} {A : Type ℓ} {x y : A} → ◌≡◌ {A = Outcome E A} (returned x) (returned y) → x ≡ y
returned-injective same = cc
