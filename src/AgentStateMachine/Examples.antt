-- ===== src/AgentStateMachine/Examples.antt =====
-- A running agent that goes on, finishes and is then left alone.
use ai_backend_engineer_hand.Prelude.{
  ◌≡◌, ◌≢◌, ◌↔◌, ◌≤◌, ◌+◌, refl, true, false, none, some, [], ◌∷◌, ok, String_discrete, ℕ_discrete,
  ◌-ℤ◌, lookup, insert, arith, text_digest, str, join, prefixed, first_chars, string_eq,
}
use ai_backend_engineer_hand.AgentLoop.Types as Loop
use ai_backend_engineer_hand.AgentLoop.Types.{
  ControlDecision-discrete, NextStepRequest, AgentStepResult, check_step_result,
}
use ai_backend_engineer_hand.AgentStateMachine.Types.{
  AgentState-discrete, TransitionAction-discrete, running, completed, pending_reconciliation,
  reconcile_original_identity, continue, reconcile, action_value, no_recovery,
  allowed_to_day74_admission, applied,
}
use ai_backend_engineer_hand.AgentStateMachine.Budget.{
  BudgetSnapshot, remaining_steps, available_tokens, available_cost, required_capacity, admitted,
}
use ai_backend_engineer_hand.AgentStateMachine.Progress.{ProgressSnapshot}
use ai_backend_engineer_hand.AgentStateMachine.Decide.{
  AgentTransitionInput, TransitionDecision, check_decision, transition_id_of, decision, identity_or,
  within_budget, supported, governed, decide_transition,
}
use ai_backend_engineer_hand.AgentStateMachine.Store.{AgentStateStore, reservation_fits, apply}
use ai_backend_engineer_hand.AgentStateMachine.Candidates.{
  MayAdvance, decide_transition-continue_iff,
}
use ai_backend_engineer_hand.AgentStateMachine.Traces.{
  run_all, step_count, applied_count, WithinBudget, run_all-WithinBudget, run_all-fence_token,
  run_all-step_limit, stale_never_applied,
}
use ai_backend_engineer_hand.AgentStateMachine.EndToEnd.{IsSnapshot, candidate_is_applied}

abbrev budget : BudgetSnapshot
budget = record {
  step_limit = 5;
  steps_used = 1;
  token_limit = 1000;
  settled_tokens = 100;
  held_token_reservations = 50;
  cost_limit = 10;
  settled_cost = 1;
  held_cost_reservations = 1;
}

abbrev step_result : AgentStepResult
step_result = record {
  tenant_id = "tenant";
  job_id = "job";
  step_id = "step-1";
  source_attempt_id = "attempt-1";
  control_decision_id = "decision-1";
  decision = Loop.continue;
  reason = "goal_not_yet_satisfied";
  next_step = some (record {
    tenant_id = "tenant";
    job_id = "job";
    step_id = "step-2";
    parent_step_id = "step-1";
    runtime_attempt_id = "attempt-2";
    control_decision_id = "decision-1";
    verified_observation_ids = [];
  });
}

-- The loop wants to go on, with 200 tokens and a cost of 3.
abbrev going_on : AgentTransitionInput
going_on = record {
  tenant_id = "tenant";
  job_id = "job";
  step_id = "step-1";
  attempt_id = "attempt-1";
  state = running;
  fence_token = 7;
  day79_result = step_result;
  goal_verified = false;
  pending_reconciliation_identity = none;
  current_authorization = true;
  day80_governance = some allowed_to_day74_admission;
  hard_loop_detected = false;
  budget = budget;
  context_budget = record {
    input_tokens = 100;
    reserved_output_tokens = 50;
    safety_margin = 10;
    permitted_context_budget = 400;
    provider_context_limit = 800;
  };
  requested_token_reservation = 200;
  requested_cost_reservation = 3;
}

abbrev store : AgentStateStore
store = record {
  current = record {
    tenant_id = "tenant";
    job_id = "job";
    current_step_id = "step-1";
    state = running;
    fence_token = 7;
    budget = budget;
  };
  applied_decisions = [];
}

abbrev next : TransitionDecision
unfolding transition_id_of action_value str join prefixed first_chars
next = record {
  phase = "PRE_NEXT_STEP_GUARD";
  status = "NEXT_STEP_CANDIDATE";
  transition_id = transition_id_of going_on continue "NEXT_STEP_CANDIDATE";
  tenant_id = "tenant";
  job_id = "job";
  step_id = "step-1";
  attempt_id = "attempt-1";
  expected_state = running;
  expected_fence_token = 7;
  action = continue;
  proposed_next_state = running;
  termination_reason = none;
  recovery_action = no_recovery;
  next_step = step_result.next_step;
  requested_token_reservation = 200;
  requested_cost_reservation = 3;
  evidence = "snapshot_guards_passed_candidate_only" ∷ [];
}

next_returned : decide_transition going_on ≡ ok next
unfolding next decide_transition governed supported within_budget decision check_decision
    transition_id_of action_value remaining_steps available_tokens available_cost required_capacity
    admitted ◌-ℤ◌ str join prefixed first_chars ControlDecision-discrete TransitionAction-discrete
next_returned = refl

next_applied : (apply next store).0 ≡ ok applied
unfolding next apply reservation_fits remaining_steps available_tokens available_cost ◌-ℤ◌
    transition_id_of action_value lookup insert str join prefixed first_chars String_discrete
    ℕ_discrete AgentState-discrete
next_applied = refl

step_result_checked : check_step_result step_result ≡ ok step_result
unfolding check_step_result String_discrete ControlDecision-discrete
step_result_checked = refl

store-WithinBudget : WithinBudget store.current.budget
store-WithinBudget = record { steps = omega arith; tokens = omega arith; cost = omega arith }

going_on-IsSnapshot : IsSnapshot going_on store
going_on-IsSnapshot = record {
  tenant_id = refl;
  job_id = refl;
  step_id = refl;
  state = refl;
  fence_token = refl;
  budget = refl;
}

going_on-MayAdvance : MayAdvance going_on
going_on-MayAdvance = ground arith

run_all-step_limit_example : 1 + step_count (next ∷ next ∷ []) store ≤ 5
run_all-step_limit_example = run_all-step_limit (next ∷ next ∷ []) store store-WithinBudget

run_all-WithinBudget_example : WithinBudget (run_all (next ∷ next ∷ []) store).current.budget
run_all-WithinBudget_example = run_all-WithinBudget (next ∷ next ∷ []) store store-WithinBudget

run_all-fence_token_example :
    (run_all (next ∷ next ∷ []) store).current.fence_token
    ≡ 7 + applied_count (next ∷ next ∷ []) store
run_all-fence_token_example = run_all-fence_token (next ∷ next ∷ []) store

stale_never_applied_example : (apply next (run_all [] (apply next store).1)).0 ≢ ok applied
unfolding next
stale_never_applied_example = stale_never_applied next next [] store next_applied (omega arith)

abbrev finished : AgentStateStore
finished = record store { current = record (store.current) { state = completed } }

decide_transition-continue_iff_example : (next.action ≡ continue) ↔ MayAdvance going_on
decide_transition-continue_iff_example = decide_transition-continue_iff going_on next next_returned

candidate_is_applied_example : (apply next store).0 ≡ ok applied
unfolding lookup
candidate_is_applied_example =
    candidate_is_applied going_on next store step_result_checked next_returned going_on-IsSnapshot
      refl refl

-- The same agent while the outcome of an effect is not known.
abbrev uncertain : AgentTransitionInput
uncertain = record going_on { pending_reconciliation_identity = some "attempt-0" }

abbrev reconciled : TransitionDecision
unfolding transition_id_of action_value str join prefixed first_chars
reconciled = record {
  phase = "PRE_NEXT_STEP_GUARD";
  status = "EXTERNAL_OUTCOME_UNKNOWN";
  transition_id = transition_id_of uncertain reconcile "EXTERNAL_OUTCOME_UNKNOWN";
  tenant_id = "tenant";
  job_id = "job";
  step_id = "step-1";
  attempt_id = "attempt-1";
  expected_state = running;
  expected_fence_token = 7;
  action = reconcile;
  proposed_next_state = pending_reconciliation;
  termination_reason = none;
  recovery_action = reconcile_original_identity;
  next_step = none;
  requested_token_reservation = 0;
  requested_cost_reservation = 0;
  evidence = "attempt-0" ∷ "reservation_must_remain_held" ∷ [];
}

reconciled_returned : decide_transition uncertain ≡ ok reconciled
unfolding reconciled decide_transition identity_or decision check_decision transition_id_of
    action_value str join prefixed first_chars String_discrete ControlDecision-discrete
    TransitionAction-discrete
reconciled_returned = refl

abbrev stuck : ProgressSnapshot
stuck = record {
  state = running;
  remaining_goal_conditions = "b" ∷ "a" ∷ [];
  verified_observation_ids = [];
  action_fingerprint = "search";
}
