-- ===== src/ServerLifecycle/Sets.antt =====
-- Membership under the set operations of the server's lifecycle.
use ai_backend_engineer_hand.Prelude.{
  String, ◌≡◌, refl, true, not, ◌||◌, ◌&&◌, List, [], ◌∷◌, ◌==◌, string_eq, is_in, all_distinct,
  sorted, if◌then◌else◌, insert_sorted, arith,
}
use ai_backend_engineer_hand.ServerLifecycle.{remove, union}

pub is_in-remove :
    (j id : String) (xs : List String)
    → all_distinct xs ≡ true
    → is_in j (remove id xs) ≡ (not (id == j) && is_in j xs)
unfolding remove
is_in-remove j id [] h = ground arith
is_in-remove j id (x ∷ xs) h = ground (arith, is_in-remove j id xs)

pub all_distinct-remove :
    (id : String) (xs : List String) → all_distinct xs ≡ true → all_distinct (remove id xs) ≡ true
unfolding remove
all_distinct-remove id [] h = refl
all_distinct-remove id (x ∷ xs) h = ground (arith, all_distinct-remove id xs, is_in-remove x id xs)

pub is_in-union :
    (j : String) (xs ys : List String) → is_in j (union xs ys) ≡ (is_in j xs || is_in j ys)
unfolding union
is_in-union j xs [] = ground arith
is_in-union j xs (y ∷ ys) = ground (arith, is_in-union j (if is_in y xs then xs else y ∷ xs) ys)

is_in-insert_sorted :
    (j id : String) (xs : List String) → is_in j (insert_sorted id xs) ≡ (id == j || is_in j xs)
unfolding insert_sorted
is_in-insert_sorted j id [] = refl
is_in-insert_sorted j id (x ∷ xs) = ground (arith, is_in-insert_sorted j id xs)

pub is_in-sorted : (j : String) (xs : List String) → is_in j (sorted xs) ≡ is_in j xs
unfolding sorted
is_in-sorted j [] = refl
is_in-sorted j (x ∷ xs) = ground (arith, is_in-insert_sorted j x (sorted xs), is_in-sorted j xs)
