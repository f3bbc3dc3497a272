-- ===== src/Base/Outcomes.antt =====
-- What a run of C++ code comes to: a result, undefined behaviour, or more rounds than the fuel allows.
use mathlib.Core.Path.{◌≡◌, refl}
use mathlib.Core.Logic.{◌⊎◌, inl, inr}

pub data Outcome {ℓ} (A : Type ℓ) : Type ℓ where
  -- The code returned.
  ok : A → Outcome A
  -- It read or wrote outside an array, or used an iterator that points nowhere.
  undefined : Outcome A
  -- A loop did not end within the fuel.
  out_of_fuel : Outcome A

infixl 5 ◌>>=◌
abbrev pub ◌>>=◌ {ℓ κ} :
    {Value : Type ℓ} {Next : Type κ} → Outcome Value → (Value → Outcome Next) → Outcome Next
ok value >>= after = after value
undefined >>= after = undefined
out_of_fuel >>= after = out_of_fuel

-- Inversion of a bind that returned.
pub >>=-eq-ok {ℓ κ} :
    {Value : Type ℓ} {Next : Type κ} (run : Outcome Value) (after : Value → Outcome Next)
    {final : Next}
    → (run >>= after) ≡ ok final
    → (value : Value) × (run ≡ ok value) × (after value ≡ ok final)
>>=-eq-ok (ok value) after returned = (value, refl, returned)
>>=-eq-ok undefined after returned = cc
>>=-eq-ok out_of_fuel after returned = cc

-- Inversion of a bind that ran out of fuel.
pub >>=-eq-out_of_fuel {ℓ κ} :
    {Value : Type ℓ} {Next : Type κ} (run : Outcome Value) (after : Value → Outcome Next)
    → (run >>= after) ≡ out_of_fuel
    → (run ≡ out_of_fuel) ⊎ ((value : Value) × (run ≡ ok value) × (after value ≡ out_of_fuel))
>>=-eq-out_of_fuel (ok value) after returned = inr (value, refl, returned)
>>=-eq-out_of_fuel undefined after returned = cc
>>=-eq-out_of_fuel out_of_fuel after returned = inl refl

-- Inversion of a bind that went wrong.
pub >>=-eq-undefined {ℓ κ} :
    {Value : Type ℓ} {Next : Type κ} (run : Outcome Value) (after : Value → Outcome Next)
    → (run >>= after) ≡ undefined
    → (run ≡ undefined) ⊎ ((value : Value) × (run ≡ ok value) × (after value ≡ undefined))
>>=-eq-undefined (ok value) after returned = inr (value, refl, returned)
>>=-eq-undefined undefined after returned = inl refl
>>=-eq-undefined out_of_fuel after returned = cc

-- Binds one after the other.
pub >>=_assoc {ℓ κ μ} :
    {A : Type ℓ} {B : Type κ} {C : Type μ} (run : Outcome A) (f : A → Outcome B) (g : B → Outcome C)
    → (run >>= f >>= g) ≡ (run >>= λ a. f a >>= g)
>>=_assoc (ok a) f g = refl
>>=_assoc undefined f g = refl
>>=_assoc out_of_fuel f g = refl

pub >>=_congr {ℓ κ} :
    {A : Type ℓ} {B : Type κ} (run : Outcome A) (f g : A → Outcome B)
    → ((a : A) → f a ≡ g a)
    → (run >>= f) ≡ (run >>= g)
>>=_congr run f g same = λ i. run >>= λ a. same a i
