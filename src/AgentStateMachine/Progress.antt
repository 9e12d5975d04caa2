-- ===== src/AgentStateMachine/Progress.antt =====
-- `ProgressSnapshot` and the loop detector of projects/ai-agent/src/agent_state_machine.py.
use ai_backend_engineer_hand.Prelude.{
  ℕ, String, ◌-◌, Bool, false, not, List, [], ◌∷◌, map, Result, ok, raised, value_error, raise_if,
  ◌>>◌, ◌==◌, string_eq, ltb, length, drop, all_distinct, set_size, nat_eq, Sha256, join, sorted,
  if◌then◌else◌,
}
use ai_backend_engineer_hand.AgentStateMachine.Types.{AgentState, state_value}

pub record ProgressSnapshot : Type 0 where
  pub state : AgentState
  pub remaining_goal_conditions : List String
  pub verified_observation_ids : List String
  pub action_fingerprint : String

-- `ProgressSnapshot.__post_init__`.
unfoldable pub check_progress : ProgressSnapshot → Result ProgressSnapshot
check_progress p = do
  raise_if (not (all_distinct p.verified_observation_ids))
      "verified observation identities must be unique"
  raise_if (p.action_fingerprint == "") "action fingerprint is required"
  ok p

-- `history[-n:]` for `0 < n`.
unfoldable pub last_items {ℓ} : {A : Type ℓ} → ℕ → List A → List A
last_items n history = drop (length history - n) history

module _ ⦃sha : Sha256⦄ where
  unfoldable pub progress_fingerprint : ProgressSnapshot → String
  progress_fingerprint p = sha.hex_digest (
      join "\u{1f}" (
        state_value p.state
        ∷ join "," (sorted p.remaining_goal_conditions)
        ∷ join "," (sorted p.verified_observation_ids)
        ∷ []))

  unfoldable pub no_progress_threshold_reached : List ProgressSnapshot → ℕ → Result Bool
  no_progress_threshold_reached history threshold =
      if ltb threshold 2
      then raised (value_error "no-progress threshold must be at least two")
      else if ltb (length history) threshold
      then ok false
      else ok (set_size (map progress_fingerprint (last_items threshold history)) == 1)
