-- ===== src/AgentLoop/Decide.antt =====
-- `decide_control` of projects/ai-agent/src/agent_loop.py and what it calls.
use ai_backend_engineer_hand.Prelude.{
  String, Option, none, some, List, [], ◌∷◌, Result, ◌==◌, leb, length, is_some, Sha256, join,
  prefixed, first_chars, if◌then◌else◌,
}
use ai_backend_engineer_hand.AgentLoop.Types.{
  ControlDecision, continue, complete, wait, fail, reconcile, control_decision_eq, decision_value,
  completed, rejected, blocked_pre_dispatch, pending_reconciliation, RuntimeResult, AgentStepInput,
  NextStepRequest, AgentStepResult, check_step_result,
}

module _ ⦃sha : Sha256⦄ where
  -- `_stable_id`: `f"{prefix}-{digest}"` over the parts joined by the unit separator.
  unfoldable pub stable_id : String → List String → String
  stable_id start parts =
      prefixed start (prefixed "-" (first_chars 20 (sha.hex_digest (join "\u{1f}" parts))))

  unfoldable pub decision_id_of : AgentStepInput → ControlDecision → String → String
  decision_id_of s decision reason = stable_id "decision" (
      s.tenant_id
      ∷ s.job_id
      ∷ s.current_step_id
      ∷ s.runtime_attempt_id
      ∷ decision_value decision
      ∷ reason
      ∷ join "," s.verified_observation_ids
      ∷ [])

  unfoldable pub next_step_of : AgentStepInput → String → NextStepRequest
  next_step_of s decision_id =
      let next_step_id = stable_id "step" (s.job_id ∷ s.current_step_id ∷ decision_id ∷ []) in
      record {
        tenant_id = s.tenant_id;
        job_id = s.job_id;
        step_id = next_step_id;
        parent_step_id = s.current_step_id;
        runtime_attempt_id = stable_id "attempt" (s.job_id ∷ next_step_id ∷ []);
        control_decision_id = decision_id;
        verified_observation_ids = s.verified_observation_ids;
      }

  -- The record that `_result` builds.
  unfoldable pub step_result_of : AgentStepInput → ControlDecision → String → AgentStepResult
  step_result_of s decision reason =
      let decision_id = decision_id_of s decision reason in
      record {
        tenant_id = s.tenant_id;
        job_id = s.job_id;
        step_id = s.current_step_id;
        source_attempt_id = s.runtime_attempt_id;
        control_decision_id = decision_id;
        decision = decision;
        reason = reason;
        next_step = if decision == continue then some (next_step_of s decision_id) else none;
      }

  -- `_result`: the record passes its own `__post_init__`, or the call raises.
  unfoldable pub result : AgentStepInput → ControlDecision → String → Result AgentStepResult
  unfolding step_result_of
  result s decision reason = check_step_result (step_result_of s decision reason)

  -- The last three tests of `decide_control`.
  decide_progress : AgentStepInput → Result AgentStepResult
  decide_progress s =
      if leb s.goal_required_observations (length s.verified_observation_ids)
      then result s complete "goal_satisfied_by_verified_observations"
      else if is_some s.waiting_for
      then result s wait "known_prerequisite_pending"
      else result s continue "goal_not_yet_satisfied"

  -- The tests on `runtime_result`.
  decide_runtime : Option RuntimeResult → AgentStepInput → Result AgentStepResult
  decide_runtime none s = decide_progress s
  decide_runtime (some r) s = elim r.status [
    | pending_reconciliation ↦ result s reconcile "runtime_pending_reconciliation"
    | rejected ↦ result s fail "runtime_explicit_non_success"
    | blocked_pre_dispatch ↦ result s fail "runtime_explicit_non_success"
    | completed ↦ decide_progress s
  ]

  unfoldable pub decide_control : AgentStepInput → Result AgentStepResult
  unfolding decide_runtime decide_progress
  decide_control s =
      if s.job_is_terminal
      then result s complete "job_already_terminal"
      else if is_some s.pending_reconciliation_identity
      then result s reconcile "external_outcome_unknown"
      else decide_runtime s.runtime_result s
