-- ===== src/Prelude/Floats.antt =====
-- Python's floats as an interface: the operations that the code uses, and the one law that the
-- theorems need. `ratio a b` is the float nearest to `a / b`, which is also what a decimal literal is.
use Prim.Native.Nat.{ℕ}
use mathlib.Core.Path.{◌≡◌}
use mathlib.Core.Bool.{Bool, true, false}
use ai_backend_engineer_hand.Prelude.Tests.{if◌then◌else◌, leb}
use ai_backend_engineer_hand.Prelude.Errors.{Result, ok}

pub record Float : Type 1 where
  pub F : Type 0
  pub lt : F → F → Bool
  pub le : F → F → Bool
  pub add : F → F → F
  pub sub : F → F → F
  pub mul : F → F → F
  pub ratio : ℕ → ℕ → F
  pub is_finite : F → Bool
  -- `round(x, 6)`.
  pub round_6 : F → F
  -- `x * n` of a float and an integer, which raises if the integer is too large for a float.
  pub mul_int : F → ℕ → Result F
  -- `<` of two floats, NaN among them, does not hold both ways.
  pub lt_asymm : (a b : F) → lt a b ≡ true → lt b a ≡ false

-- Python's `min(a, b)` and `max(a, b)` return their first argument unless the second is beyond it.
module _ (float : Float) where
  open float use {F, lt}

  abbrev pub min_float : F → F → F
  min_float a b = if lt b a then b else a

  abbrev pub max_float : F → F → F
  max_float a b = if lt a b then b else a

-- `datetime + timedelta(seconds=x)`, a datetime being its whole microseconds since the first one: it
-- raises out of range, and to add what is not negative does not go back.
pub record Clock (float : Float) : Type 0 where
  pub add_seconds : ℕ → float.F → Result ℕ
  pub add_seconds-ge :
      (t u : ℕ) (x : float.F)
      → float.le (float.ratio 0 1) x ≡ true
      → add_seconds t x ≡ ok u
      → leb t u ≡ true
