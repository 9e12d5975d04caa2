-- ===== src/Prelude/Equality.antt =====
-- Equality of texts as a decision, and one operator `==` for numbers, texts, options and enums.
use Prim.Native.Nat.{ℕ, compare, Ordering}
use Prim.Native.String.{String}
use text.Mathlib.Text.{◌==◌ as str_eq}
use text.Mathlib.TextEquality.{eq_iff}
use mathlib.Core.Path.{◌≡◌, refl}
use mathlib.Core.Logic.{◌↔◌}
use mathlib.Core.Bool.{Bool, true, false}
use mathlib.Core.Option.{Option, none, some}

unfoldable pub dec_of_test : (b : Bool) {P : Type 0} → (b ≡ true) ↔ P → Dec P
dec_of_test true e = yes (e.0 refl)
dec_of_test false e = no (λ p. cc (e.1 p))

unfoldable pub String_discrete : Discrete String
unfolding dec_of_test
String_discrete a b = dec_of_test (str_eq a b) (eq_iff a b)

-- Two texts differ if the test says so: `ne_by_test "a" "b" refl`.
pub ne_by_test : (a b : String) → str_eq a b ≡ false → a ≡ b → ⊥
ne_by_test a b h e = cc ((eq_iff a b).1 e)

abbrev pub holds {ℓ} : {P : Type ℓ} → Dec P → Bool
holds d = elim d [ yes _ ↦ true | no _ ↦ false ]

pub record Eq {ℓ} (A : Type ℓ) : Type ℓ where
  pub beq : A → A → Bool

-- The operator of the source, through the instance.
infix 50 ◌==◌
abbrev pub ◌==◌ {ℓ} : {Value : Type ℓ} → ⦃equality : Eq Value⦄ → Value → Value → Bool
◌==◌ ⦃equality⦄ a b = equality.beq a b

instance abbrev pub nat_eq : Eq ℕ
nat_eq = record { beq = λ a b. elim (compare a b) [ Ordering.eq ↦ true | _ ↦ false ] }

instance abbrev pub string_eq : Eq String
string_eq = record { beq = λ a b. holds (String_discrete a b) }

abbrev pub option_beq : {A : Type 0} → (A → A → Bool) → Option A → Option A → Bool
option_beq f none none = true
option_beq f (some a) (some b) = f a b
option_beq f _ _ = false

instance abbrev pub option_eq : {A : Type 0} ⦃e : Eq A⦄ → Eq (Option A)
option_eq ⦃e⦄ = record { beq = option_beq e.beq }
