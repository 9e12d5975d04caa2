-- ===== src/Prelude/Lists.antt =====
-- Lists measured by native numbers, under the library's names, and tests on all elements.
use Prim.Native.Nat.{ℕ, zero, suc, ◌+◌, ◌-◌}
use Prim.Native.String.{String}
use mathlib.Core.Path.{◌≡◌}
use mathlib.Core.Bool.{Bool, true, false, ◌&&◌, ◌||◌, not}
use mathlib.Core.List.{List, [], ◌∷◌, ◌++◌, map}
use native.Mathlib.Omega.{arith}
use ai_backend_engineer_hand.Prelude.Tests.{if◌then◌else◌}
use ai_backend_engineer_hand.Prelude.Equality.{◌==◌, Eq, string_eq}

module _ {ℓ} {A : Type ℓ} where
  abbrev pub length : List A → ℕ
  length [] = 0
  length (x ∷ xs) = suc (length xs)

  abbrev pub drop : ℕ → List A → List A
  drop zero xs = xs
  drop (suc n) [] = []
  drop (suc n) (x ∷ xs) = drop n xs

  pub length-append : (xs ys : List A) → length (xs ++ ys) ≡ length xs + length ys
  length-append [] ys = omega arith
  length-append (x ∷ xs) ys = omega (arith, length-append xs ys)

  pub length-drop : (n : ℕ) (xs : List A) → length (drop n xs) ≡ length xs - n
  length-drop zero xs = omega arith
  length-drop (suc n) [] = omega arith
  length-drop (suc n) (x ∷ xs) = omega (arith, length-drop n xs)

-- `all(texts)`: no text is empty.
abbrev pub all_given : List String → Bool
all_given [] = true
all_given (x ∷ xs) = not (x == "") && all_given xs

module _ {A : Type 0} ⦃e : Eq A⦄ where
  -- `item in items`.
  abbrev pub is_in : A → List A → Bool
  is_in a [] = false
  is_in a (x ∷ xs) = x == a || is_in a xs

  -- `len(set(items)) == len(items)`.
  abbrev pub all_distinct : List A → Bool
  all_distinct [] = true
  all_distinct (x ∷ xs) = not (is_in x xs) && all_distinct xs

  -- `len(set(items))`.
  abbrev pub set_size : List A → ℕ
  set_size [] = 0
  set_size (x ∷ xs) = if is_in x xs then set_size xs else suc (set_size xs)

pub length-map {ℓ κ} :
    {A : Type ℓ} {B : Type κ} (xs : List A) (f : A → B) → length (map f xs) ≡ length xs
length-map [] f = omega arith
length-map (x ∷ xs) f = omega (arith, length-map xs f)
