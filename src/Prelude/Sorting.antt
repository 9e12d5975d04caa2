-- ===== src/Prelude/Sorting.antt =====
-- Python's `sorted` on texts, as insertion into a sorted list; the order is that of the code points.
use Prim.Native.Nat.{Ordering}
use Prim.Native.String.{String, compare}
use mathlib.Core.Bool.{Bool, true, false}
use mathlib.Core.List.{List, [], ◌∷◌, Perm}
use mathlib.Core.List.Perm
use ai_backend_engineer_hand.Prelude.Tests.{if◌then◌else◌, Bool-cases}
use mathlib.Core.Logic.{inl, inr}

-- `a <= b`.
unfoldable pub text_leb : String → String → Bool
text_leb a b = elim (compare a b) [ Ordering.gt ↦ false | _ ↦ true ]

unfoldable pub insert_sorted : String → List String → List String
insert_sorted a [] = a ∷ []
insert_sorted a (x ∷ xs) = if text_leb a x then a ∷ x ∷ xs else x ∷ insert_sorted a xs

unfoldable pub sorted : List String → List String
unfolding insert_sorted text_leb
sorted [] = []
sorted (x ∷ xs) = insert_sorted x (sorted xs)

insert_sorted-perm : (a : String) (xs : List String) → Perm (insert_sorted a xs) (a ∷ xs)
unfolding insert_sorted
insert_sorted-perm a [] = Perm.refl (a ∷ [])
insert_sorted-perm a (x ∷ xs) = elim (Bool-cases (text_leb a x)) [
  | inl e ↦ rw e (Perm.refl (a ∷ x ∷ xs))
  | inr e ↦ rw e (Perm.trans (Perm.cons x (insert_sorted-perm a xs)) (Perm.swap a x xs))
]

-- Sorting keeps the items, each as often as before.
pub sorted-perm : (xs : List String) → Perm (sorted xs) xs
unfolding sorted
sorted-perm [] = Perm.refl []
sorted-perm (x ∷ xs) = Perm.trans (insert_sorted-perm x (sorted xs)) (Perm.cons x (sorted-perm xs))
