-- ===== src/Common/Run.antt =====
-- How a call ends, and the rules for calls that end well.
use mathlib.Core.Path.{◌≡◌, refl}
use mathlib.Core.Bool.{Bool, true, false}
use hft_radial_cache.Common.Tests.{if◌then◌else◌}

-- A returned value, undefined behaviour, or a loop that does not end
-- (the model's fuel running out).
pub data Run {ℓ} (A : Type ℓ) : Type ℓ where
  ok : A → Run A
  fault stuck : Run A

infixl 5 ◌>>=◌
abbrev pub ◌>>=◌ {ℓ κ} : {A : Type ℓ} {B : Type κ} → Run A → (A → Run B) → Run B
ok a >>= f = f a
fault >>= f = fault
stuck >>= f = stuck

-- The call comes back, and what it comes back with is as `Good` says.
pub data Returns {ℓ κ} {Value : Type ℓ} (Good : Value → Type κ) : Run Value → Type (ℓ ⊔ κ) where
  returns : {value : Value} → Good value → Returns Good (ok value)

-- Either branch of a test.
pub Returns-if {ℓ κ} :
    {Value : Type ℓ} {Good : Value → Type κ} {yes no : Run Value} (test : Bool)
    → (test ≡ true → Returns Good yes)
    → (test ≡ false → Returns Good no)
    → Returns Good (if test then yes else no)
Returns-if false when_yes when_no = when_no refl
Returns-if true when_yes when_no = when_yes refl

-- A call, and one that goes on with what it returns.
pub Returns-bind {ℓ ℓ' κ κ'} :
    {Value : Type ℓ} {Next : Type ℓ'} {Good : Value → Type κ} {Best : Next → Type κ'}
    {call : Run Value} {next : Value → Run Next}
    → Returns Good call
    → ((value : Value) → Good value → Returns Best (next value))
    → Returns Best (call >>= next)
Returns-bind (returns good) later = later _ good

pub Returns-map {ℓ κ κ'} :
    {Value : Type ℓ} {Good : Value → Type κ} {Better : Value → Type κ'} {call : Run Value}
    → Returns Good call
    → ((value : Value) → Good value → Better value)
    → Returns Better call
Returns-map (returns good) improve = returns (improve _ good)

abbrev pub value_or {ℓ} : {A : Type ℓ} → A → Run A → A
value_or d (ok a) = a
value_or d fault = d
value_or d stuck = d

pub Returns-value_or {ℓ κ} :
    {A : Type ℓ} {P : A → Type κ} {r : Run A} (d : A) → Returns P r → P (value_or d r)
Returns-value_or d (returns p) = p
