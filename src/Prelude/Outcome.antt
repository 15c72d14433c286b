-- ===== src/Prelude/Outcome.antt =====
-- Runs of Go code: a value, a panic, or a loop whose fuel ran out.
use mathlib.Core.Path.{◌≡◌, refl}
use mathlib.Core.Logic.{◌⊎◌, inl, inr}
use mathlib.Core.Option.{Option, none, some}

pub data Run {ℓ} (A : Type ℓ) : Type ℓ where
  ok : A → Run A
  panic : Run A
  out_of_fuel : Run A

infixl 5 ◌>>=◌
abbrev pub ◌>>=◌ {ℓ κ} : {A : Type ℓ} {B : Type κ} → Run A → (A → Run B) → Run B
ok a >>= f = f a
panic >>= f = panic
out_of_fuel >>= f = out_of_fuel

-- A Go expression that panics where the model has no value.
abbrev pub or_panic {ℓ} : {A : Type ℓ} → Option A → Run A
or_panic none = panic
or_panic (some a) = ok a

-- The run ends in a value with the property.
abbrev pub Returns {ℓ κ} : {A : Type ℓ} → (A → Type κ) → Run A → Type (ℓ ⊔ κ)
Returns {A} P r = (a : A) × (r ≡ ok a) × P a

pub >>=-ok {ℓ} : {A : Type ℓ} (m : Run A) → (m >>= ok) ≡ m
>>=-ok (ok a) = refl
>>=-ok panic = refl
>>=-ok out_of_fuel = refl

pub >>=_assoc {ℓ κ μ} :
    {A : Type ℓ} {B : Type κ} {C : Type μ} (m : Run A) (f : A → Run B) (g : B → Run C)
    → (m >>= f >>= g) ≡ (m >>= λ a. f a >>= g)
>>=_assoc (ok a) f g = refl
>>=_assoc panic f g = refl
>>=_assoc out_of_fuel f g = refl

-- A bind that returns went through its first part.
pub >>=-eq-ok {ℓ κ} :
    {A : Type ℓ} {B : Type κ} {b : B} (first : Run A) (rest : A → Run B)
    → (first >>= rest) ≡ ok b
    → (x : A) × (first ≡ ok x) × (rest x ≡ ok b)
>>=-eq-ok panic rest e = absurd (cc)
>>=-eq-ok out_of_fuel rest e = absurd (cc)
>>=-eq-ok (ok x) rest e = (x, refl, e)

pub or_panic-eq-ok {ℓ} : {A : Type ℓ} (o : Option A) {a : A} → or_panic o ≡ ok a → o ≡ some a
or_panic-eq-ok none h = absurd (cc)
or_panic-eq-ok (some b) h = cc

pub ok-injective {ℓ} : {A : Type ℓ} {a b : A} → ok a ≡ ok b → a ≡ b
ok-injective h = cc

-- A bind that runs out of fuel does so in one of its parts.
pub >>=-eq-out_of_fuel {ℓ κ} :
    {A : Type ℓ} {B : Type κ} (m : Run A) (f : A → Run B)
    → (m >>= f) ≡ out_of_fuel
    → (m ≡ out_of_fuel) ⊎ ((a : A) × (m ≡ ok a) × (f a ≡ out_of_fuel))
>>=-eq-out_of_fuel (ok a) f h = inr (a, refl, h)
>>=-eq-out_of_fuel panic f h = absurd (cc)
>>=-eq-out_of_fuel out_of_fuel f h = inl refl
