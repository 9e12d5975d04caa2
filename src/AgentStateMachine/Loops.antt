-- ===== src/AgentStateMachine/Loops.antt =====
-- What the loop detector of projects/ai-agent/src/agent_state_machine.py detects.
use ai_backend_engineer_hand.Prelude.{
  ℕ, String, ◌-◌, ◌≤◌, ◌<◌, ◌≡◌, refl, sym, ◌↔◌, inl, inr, Bool, true, Bool-cases, List, [], ◌∷◌,
  map, ok, ◌==◌, string_eq, nat_eq, ltb, length, length-drop, length-map, is_in, set_size, arith,
  Sha256,
}
use mathlib.Core.Path.{subst}
use ai_backend_engineer_hand.AgentStateMachine.Progress.{
  ProgressSnapshot, last_items, progress_fingerprint, no_progress_threshold_reached,
}

-- Every text of the list is `a`.
abbrev pub AllEqual : String → List String → Type 0
AllEqual a [] = Unit
AllEqual a (x ∷ xs) = (x ≡ a) × AllEqual a xs

set_size-pos : (x : String) (xs : List String) → 0 < set_size (x ∷ xs)
set_size-pos x [] = omega arith
set_size-pos x (y ∷ ys) = ground (arith, set_size-pos y ys)

is_in-AllEqual : (a x : String) (xs : List String) → is_in x xs ≡ true → AllEqual a xs → x ≡ a
is_in-AllEqual a x [] h e = cc
is_in-AllEqual a x (y ∷ ys) h e = ground (arith, is_in-AllEqual a x ys)

AllEqual-of_set_size : (x : String) (xs : List String) → set_size (x ∷ xs) ≡ 1 → AllEqual x (x ∷ xs)
AllEqual-of_set_size x [] h = (refl, tt)
AllEqual-of_set_size x (y ∷ ys) h = elim (Bool-cases (is_in x (y ∷ ys))) [
  | inl e ↦
      let all = AllEqual-of_set_size y ys (ground arith) in
      let same = is_in-AllEqual y x (y ∷ ys) e all in
      (refl, subst (λ a. AllEqual a (y ∷ ys)) (sym same) all)
  | inr e ↦ absurd (ground (arith, set_size-pos y ys))
]

set_size_of_AllEqual : (x : String) (xs : List String) → AllEqual x xs → set_size (x ∷ xs) ≡ 1
set_size_of_AllEqual x [] h = refl
set_size_of_AllEqual x (y ∷ ys) h = ground (arith, set_size_of_AllEqual x ys)

one_text : List String → Bool
one_text xs = set_size xs == 1

one_text_iff :
    (xs : List String) → 0 < length xs → (one_text xs ≡ true) ↔ ((a : String) × AllEqual a xs)
unfolding one_text
one_text_iff [] h = absurd (omega arith)
one_text_iff (x ∷ xs) h = (
  λ e. (x, AllEqual-of_set_size x xs (ground arith)),
  λ all. rw (set_size_of_AllEqual x xs (subst (λ b. AllEqual b xs) (sym all.1.0) all.1.1)) refl,
)

length-last_items {ℓ} :
    {A : Type ℓ} (n : ℕ) (xs : List A) → n ≤ length xs → length (last_items n xs) ≡ n
unfolding last_items
length-last_items n xs h = omega (arith, length-drop (length xs - n) xs)

module _ ⦃sha : Sha256⦄ where
  -- With a threshold of two or more, a loop is reported exactly if the history is long enough and
  -- the fingerprints of its last `threshold` snapshots are all one text.
  no_progress_iff :
      (history : List ProgressSnapshot) (threshold : ℕ)
      → 2 ≤ threshold
      → (no_progress_threshold_reached history threshold ≡ ok true) ↔ (
          (threshold ≤ length history)
          × ((a : String) × AllEqual a (map progress_fingerprint (last_items threshold history))))
  unfolding no_progress_threshold_reached one_text
  no_progress_iff history threshold h = elim (Bool-cases (ltb (length history) threshold)) [
    | inl short ↦ ground arith
    | inr long ↦
        let window = map progress_fingerprint (last_items threshold history) in
        let enough : threshold ≤ length history = ground arith in
        let measured : 0 < length window = omega (
          arith,
          length-map (last_items threshold history) progress_fingerprint,
          length-last_items threshold history enough,
        ) in
        let same = one_text_iff window measured in
        (λ e. (enough, same.0 (ground arith)), λ e. ground (arith, same.1 e.1))
  ]
