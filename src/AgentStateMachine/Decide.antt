-- ===== src/AgentStateMachine/Decide.antt =====
-- `decide_transition` of projects/ai-agent/src/agent_state_machine.py and what it calls.
use ai_backend_engineer_hand.Prelude.{
  ℕ, String, Bool, true, false, not, ◌||◌, Option, none, some, List, [], ◌∷◌, Result, ok, raised,
  assertion_error, raise_if, ◌>>◌, ◌==◌, string_eq, ltb_ℤ, leb_ℤ, ℤ, pos, pos_part, all_given,
  is_some, same_truth, Sha256, join, str, prefixed, first_chars, if◌then◌else◌,
}
use ai_backend_engineer_hand.AgentLoop.Types as Loop
use ai_backend_engineer_hand.AgentLoop.Types.{
  ControlDecision, control_decision_eq, AgentStepResult, NextStepRequest,
}
use ai_backend_engineer_hand.AgentStateMachine.Types.{
  AgentState, running, waiting, pending_reconciliation, completed, terminated, failed, is_terminal,
  TransitionAction, continue, wait, reconcile, complete, terminate, fail, noop,
  transition_action_eq, action_value, TerminationReason, goal_satisfied, no_progress_loop_detected,
  step_budget_exhausted, token_budget_exhausted, cost_budget_exhausted, authorization_revoked,
  non_recoverable_failure, RecoveryAction, no_recovery, reconcile_original_identity,
  wait_for_prerequisite, wait_for_replan, replan_with_current_capabilities,
  InvocationGovernanceStatus, allowed_to_day74_admission, current_permission_revoked,
  governance_value,
}
use ai_backend_engineer_hand.AgentStateMachine.Budget.{
  BudgetSnapshot, remaining_steps, available_tokens, available_cost, ContextBudget,
  required_capacity, admitted,
}

pub record AgentTransitionInput : Type 0 where
  pub tenant_id : String
  pub job_id : String
  pub step_id : String
  pub attempt_id : String
  pub state : AgentState
  pub fence_token : ℕ
  pub day79_result : AgentStepResult
  pub goal_verified : Bool
  pub pending_reconciliation_identity : Option String
  pub current_authorization : Bool
  pub day80_governance : Option InvocationGovernanceStatus
  pub hard_loop_detected : Bool
  pub budget : BudgetSnapshot
  pub context_budget : ContextBudget
  pub requested_token_reservation : ℕ
  pub requested_cost_reservation : ℕ

-- `AgentTransitionInput(...)`: the three integers that may be negative are given apart, and the
-- record is the one with their values in it.
unfoldable pub check_transition_input :
    (fence tokens cost : ℤ) → AgentTransitionInput → Result AgentTransitionInput
check_transition_input fence tokens cost i = do
  raise_if (not (all_given (i.tenant_id ∷ i.job_id ∷ i.step_id ∷ i.attempt_id ∷ [])))
      "tenant, Job, Step, and Attempt identities required"
  raise_if (ltb_ℤ fence (pos 0)) "fence token must be non-negative"
  raise_if (ltb_ℤ tokens (pos 0)) "negative token reservation"
  raise_if (ltb_ℤ cost (pos 0)) "negative cost reservation"
  raise_if
      (not (i.day79_result.tenant_id == i.tenant_id)
        || not (i.day79_result.job_id == i.job_id)
        || not (i.day79_result.step_id == i.step_id)
        || not (i.day79_result.source_attempt_id == i.attempt_id))
      "Day79 result identity mismatch"
  ok (record i {
    fence_token = pos_part fence;
    requested_token_reservation = pos_part tokens;
    requested_cost_reservation = pos_part cost;
  })

pub record TransitionDecision : Type 0 where
  pub phase : String
  pub status : String
  pub transition_id : String
  pub tenant_id : String
  pub job_id : String
  pub step_id : String
  pub attempt_id : String
  pub expected_state : AgentState
  pub expected_fence_token : ℕ
  pub action : TransitionAction
  pub proposed_next_state : AgentState
  pub termination_reason : Option TerminationReason
  pub recovery_action : RecoveryAction
  pub next_step : Option NextStepRequest
  pub requested_token_reservation : ℕ
  pub requested_cost_reservation : ℕ
  pub evidence : List String

-- `TransitionDecision.__post_init__`.
unfoldable pub check_decision : TransitionDecision → Result TransitionDecision
check_decision d = do
  raise_if (not (same_truth (d.action == continue) (is_some d.next_step)))
      "only CONTINUE carries a Day79 next Step"
  ok d

-- `pending or fallback`: an empty identity counts as none.
unfoldable pub identity_or : Option String → String → String
identity_or none fallback = fallback
identity_or (some p) fallback = if p == "" then fallback else p

module _ ⦃sha : Sha256⦄ where
  -- `_transition_id`.
  unfoldable pub transition_id_of : AgentTransitionInput → TransitionAction → String → String
  transition_id_of i action status = prefixed "transition-" (
      first_chars 20 (
        sha.hex_digest (
          join "\u{1f}" (
            i.tenant_id
            ∷ i.job_id
            ∷ i.step_id
            ∷ i.attempt_id
            ∷ str i.fence_token
            ∷ i.day79_result.control_decision_id
            ∷ action_value action
            ∷ status
            ∷ []))))

  -- `_decision`. Only the last candidate reserves and carries a next step.
  unfoldable pub decision :
      AgentTransitionInput
      → TransitionAction
      → AgentState
      → String
      → Option TerminationReason
      → RecoveryAction
      → Option NextStepRequest
      → Bool
      → List String
      → Result TransitionDecision
  unfolding check_decision
  decision i action next_state status reason recovery next reserve evidence =
      check_decision (record {
        phase = "PRE_NEXT_STEP_GUARD";
        status = status;
        transition_id = transition_id_of i action status;
        tenant_id = i.tenant_id;
        job_id = i.job_id;
        step_id = i.step_id;
        attempt_id = i.attempt_id;
        expected_state = i.state;
        expected_fence_token = i.fence_token;
        action = action;
        proposed_next_state = next_state;
        termination_reason = reason;
        recovery_action = recovery;
        next_step = next;
        requested_token_reservation = if reserve then i.requested_token_reservation else 0;
        requested_cost_reservation = if reserve then i.requested_cost_reservation else 0;
        evidence = evidence;
      })

  -- A decision with no next step and no reservation.
  abbrev pub plain :
      AgentTransitionInput
      → TransitionAction
      → AgentState
      → String
      → Option TerminationReason
      → RecoveryAction
      → List String
      → Result TransitionDecision
  plain i action next_state status reason recovery evidence =
      decision i action next_state status reason recovery none false evidence

  -- The budget tests, and the candidate that passes them all; the `assert` stands before it.
  unfoldable pub within_budget : AgentTransitionInput → Result TransitionDecision
  within_budget i =
      if leb_ℤ (remaining_steps i.budget) (pos 0)
      then plain i terminate terminated "STEP_BUDGET_EXHAUSTED" (some step_budget_exhausted)
          no_recovery []
      else if not (admitted i.context_budget)
      then plain i wait waiting "CONTEXT_BUDGET_EXCEEDED" none wait_for_replan (
          prefixed "required_capacity=" (str (required_capacity i.context_budget))
          ∷ "identity_authorization_and_evidence_must_be_preserved"
          ∷ [])
      else if ltb_ℤ (available_tokens i.budget) (pos i.requested_token_reservation)
      then plain i terminate terminated "TOKEN_BUDGET_EXHAUSTED" (some token_budget_exhausted)
          no_recovery []
      else if ltb_ℤ (available_cost i.budget) (pos i.requested_cost_reservation)
      then plain i terminate terminated "COST_BUDGET_EXHAUSTED" (some cost_budget_exhausted)
          no_recovery []
      else if not (is_some i.day79_result.next_step)
      then raised assertion_error
      else decision i continue running "NEXT_STEP_CANDIDATE" none no_recovery
          i.day79_result.next_step true ("snapshot_guards_passed_candidate_only" ∷ [])

  -- The test for a decision that the branches above do not know.
  unfoldable pub supported : AgentTransitionInput → Result TransitionDecision
  supported i =
      if not (i.day79_result.decision == Loop.continue)
      then plain i fail failed "UNSUPPORTED_DAY79_DECISION" (some non_recoverable_failure)
          no_recovery []
      else within_budget i

  -- The tests on `day80_governance`.
  unfoldable pub governed :
      Option InvocationGovernanceStatus → AgentTransitionInput → Result TransitionDecision
  governed none i = supported i
  governed (some allowed_to_day74_admission) i = supported i
  governed (some current_permission_revoked) i =
      plain i terminate terminated "DAY80_CURRENT_PERMISSION_REVOKED" (some authorization_revoked)
        no_recovery (governance_value current_permission_revoked ∷ [])
  governed (some g) i =
      plain i wait waiting "DAY80_GOVERNANCE_REPLAN_REQUIRED" none replan_with_current_capabilities
        (governance_value g ∷ "old_binding_not_rewritten" ∷ [])

  unfoldable pub decide_transition : AgentTransitionInput → Result TransitionDecision
  decide_transition i =
      if is_terminal i.state
      then plain i noop i.state "ALREADY_TERMINAL" none no_recovery
          ("terminal_history_preserved" ∷ [])
      else if is_some i.pending_reconciliation_identity || i.day79_result.decision == Loop.reconcile
      then plain i reconcile pending_reconciliation "EXTERNAL_OUTCOME_UNKNOWN" none
          reconcile_original_identity
          (identity_or i.pending_reconciliation_identity i.day79_result.source_attempt_id
            ∷ "reservation_must_remain_held"
            ∷ [])
      else if i.goal_verified
      then plain i complete completed "GOAL_VERIFIED" (some goal_satisfied) no_recovery
          ("verified_goal_evidence" ∷ [])
      else if i.day79_result.decision == Loop.wait
      then plain i wait waiting "KNOWN_PREREQUISITE_PENDING" none wait_for_prerequisite []
      else if i.day79_result.decision == Loop.fail
      then plain i fail failed "NON_RECOVERABLE_CONTROL_FAILURE" (some non_recoverable_failure)
          no_recovery []
      else if i.hard_loop_detected
      then plain i terminate terminated "HARD_LOOP_DETECTED" (some no_progress_loop_detected)
          no_recovery ("no_progress_threshold_reached" ∷ [])
      else if not i.current_authorization
      then plain i terminate terminated "CURRENT_AUTHORIZATION_REVOKED" (some authorization_revoked)
          no_recovery ("current_authorization_recheck_failed" ∷ [])
      else governed i.day80_governance i
