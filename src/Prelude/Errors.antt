-- ===== src/Prelude/Errors.antt =====
-- Exceptions as values: a call returns a value or raises.
use mathlib.Core.Logic.{◌⊎◌, inl, inr}
use mathlib.Core.Path.{◌≡◌, refl}
use mathlib.Core.Bool.{Bool, true, false}
use Prim.Native.String.{String}

-- `ValueError` with its message, `KeyError` with the missing key, `RuntimeError` with its message, a
-- failed `assert`.
pub data Error : Type 0 where
  value_error key_error runtime_error : String → Error
  assertion_error : Error

pub data Result {ℓ} (Value : Type ℓ) : Type ℓ where
  raised : Error → Result Value
  ok : Value → Result Value

abbrev pub is_ok {ℓ} : {Value : Type ℓ} → Result Value → Bool
is_ok (raised error) = false
is_ok (ok value) = true

-- `if failed: raise ValueError(message)`.
abbrev pub raise_if : Bool → String → Result (Unit {0})
raise_if failed message = elim failed [ true ↦ raised (value_error message) | false ↦ ok tt ]

-- One statement after another: what raises ends the block.
infixl 5 ◌>>=◌
abbrev pub ◌>>=◌ {ℓ κ} :
    {First : Type ℓ} {Second : Type κ} → Result First → (First → Result Second) → Result Second
raised error >>= rest = raised error
ok value >>= rest = rest value

infixl 5 ◌>>◌
abbrev pub ◌>>◌ {κ} : {Second : Type κ} → Result (Unit {0}) → Result Second → Result Second
raised error >> rest = raised error
ok _ >> rest = rest

pub ok_of_is_ok {ℓ} : {A : Type ℓ} (m : Result A) → is_ok m ≡ true → (a : A) × (m ≡ ok a)
ok_of_is_ok (ok a) h = (a, refl)
ok_of_is_ok (raised e) h = cc

-- A block that returns did so in its first statement and in the rest.
pub >>=-eq-ok {ℓ κ} :
    {First : Type ℓ} {Second : Type κ} {last : Second} (first : Result First)
    (rest : First → Result Second)
    → first >>= rest ≡ ok last
    → (value : First) × (first ≡ ok value) × (rest value ≡ ok last)
>>=-eq-ok (raised error) rest returned = cc
>>=-eq-ok (ok value) rest returned = (value, refl, returned)

pub ok-injective {ℓ} : {A : Type ℓ} {a b : A} → ok a ≡ ok b → a ≡ b
ok-injective h = cc

-- To split on a call and keep the equation.
pub Result-cases {ℓ} :
    {A : Type ℓ} (m : Result A) → ((a : A) × (m ≡ ok a)) ⊎ ((e : Error) × (m ≡ raised e))
Result-cases (ok a) = inl (a, refl)
Result-cases (raised e) = inr (e, refl)
