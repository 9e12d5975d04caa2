-- ===== src/AgentStateMachine/Candidates.antt =====
-- What `decide_transition` promises: it returns a candidate for every input, the candidate is bound
-- to its snapshot, and it goes on, and reserves, exactly when every guard passes.
use ai_backend_engineer_hand.Prelude.{
  String, ◌+◌, ◌≤◌, ◌<◌, ◌≡◌, ◌≢◌, ◌↔◌, ◌⊎◌, true, false, Option, none, some, ok, is_ok, is_some,
  arith, Sha256,
}
use ai_backend_engineer_hand.AgentLoop.Types as Loop
use ai_backend_engineer_hand.AgentLoop.Types.{
  AgentStepResult, check_step_result, ControlDecision-discrete,
}
use ai_backend_engineer_hand.AgentStateMachine.Types.{
  is_terminal, continue, reconcile, noop, InvocationGovernanceStatus, allowed_to_day74_admission,
}
use ai_backend_engineer_hand.AgentStateMachine.Budget.{admitted}
use ai_backend_engineer_hand.AgentStateMachine.Budget.Tests.{
  remaining_steps_lem, available_tokens_lem, available_cost_lem,
}
use ai_backend_engineer_hand.AgentStateMachine.Decide.{
  AgentTransitionInput, TransitionDecision, decision, decide_transition, within_budget, supported,
  governed,
}

-- What the budgets must leave for a next step, as plain inequalities.
pub record HasBudget (i : AgentTransitionInput) : Type 0 where
  pub steps_left : i.budget.steps_used < i.budget.step_limit
  pub context_fits :
      i.context_budget.input_tokens + i.context_budget.reserved_output_tokens
        + i.context_budget.safety_margin
      ≤ i.context_budget.permitted_context_budget
  pub context_allowed :
      i.context_budget.permitted_context_budget ≤ i.context_budget.provider_context_limit
  pub tokens_left :
      i.budget.settled_tokens + i.budget.held_token_reservations + i.requested_token_reservation
      ≤ i.budget.token_limit
  pub cost_left :
      i.budget.settled_cost + i.budget.held_cost_reservations + i.requested_cost_reservation
      ≤ i.budget.cost_limit

-- The guards of a next step.
pub record MayAdvance (i : AgentTransitionInput) : Type 0 where
  pub live : is_terminal i.state ≡ false
  pub certain : i.pending_reconciliation_identity ≡ none
  pub proposed : i.day79_result.decision ≡ Loop.continue
  pub unverified : i.goal_verified ≡ false
  pub progressing : i.hard_loop_detected ≡ false
  pub authorized : i.current_authorization ≡ true
  pub governed :
      (i.day80_governance ≡ none) ⊎ (i.day80_governance ≡ some allowed_to_day74_admission)
  pub budget : HasBudget i

-- A candidate names its snapshot.
pub record HasIdentity (i : AgentTransitionInput) (d : TransitionDecision) : Type 0 where
  pub tenant_id : d.tenant_id ≡ i.tenant_id
  pub job_id : d.job_id ≡ i.job_id
  pub step_id : d.step_id ≡ i.step_id
  pub attempt_id : d.attempt_id ≡ i.attempt_id
  pub expected_state : d.expected_state ≡ i.state
  pub expected_fence_token : d.expected_fence_token ≡ i.fence_token

-- A candidate reserves, and carries a next step, to go on and for nothing else.
abbrev pub Reserves : AgentTransitionInput → TransitionDecision → Type 0
Reserves i d =
    ((d.action ≡ continue)
      × (d.next_step ≡ i.day79_result.next_step)
      × (d.requested_token_reservation ≡ i.requested_token_reservation)
      × (d.requested_cost_reservation ≡ i.requested_cost_reservation))
    ⊎ ((d.action ≢ continue)
        × (d.next_step ≡ none)
        × (d.requested_token_reservation ≡ 0)
        × (d.requested_cost_reservation ≡ 0))

module _ ⦃sha : Sha256⦄ where
  within_budget-is_ok :
      (i : AgentTransitionInput)
      → is_some i.day79_result.next_step ≡ true
      → is_ok (within_budget i) ≡ true
  unfolding within_budget decision
  within_budget-is_ok i h = ground arith

  governed-is_ok :
      (g : Option InvocationGovernanceStatus) (i : AgentTransitionInput)
      → check_step_result i.day79_result ≡ ok i.day79_result
      → is_ok (governed g i) ≡ true
  unfolding governed supported decision check_step_result
  governed-is_ok g i h = ground (arith, within_budget-is_ok i)

  -- A candidate is returned for every input whose Day79 result passed its own checks: neither the
  -- assertion nor the candidate's constructor fails.
  pub decide_transition-total :
      (i : AgentTransitionInput)
      → check_step_result i.day79_result ≡ ok i.day79_result
      → is_ok (decide_transition i) ≡ true
  unfolding decide_transition decision
  decide_transition-total i h = ground (arith, governed-is_ok i.day80_governance i h)

  -- The identity and the reservation of a candidate, through the levels of the function.
  within_budget_facts :
      (i : AgentTransitionInput) (d : TransitionDecision)
      → within_budget i ≡ ok d
      → HasIdentity i d × Reserves i d
  unfolding within_budget decision
  within_budget_facts i d h = ground arith

  governed_facts :
      (g : Option InvocationGovernanceStatus) (i : AgentTransitionInput) (d : TransitionDecision)
      → governed g i ≡ ok d
      → HasIdentity i d × Reserves i d
  unfolding governed supported decision
  governed_facts g i d h = ground (arith, within_budget_facts i d)

  -- A returned candidate names the tenant, job, step, attempt, state and fence of its snapshot; it
  -- carries the loop's next step and the requested reservations if it goes on, and none otherwise.
  pub decide_transition_facts :
      (i : AgentTransitionInput) (d : TransitionDecision)
      → decide_transition i ≡ ok d
      → HasIdentity i d × Reserves i d
  unfolding decide_transition decision
  decide_transition_facts i d h = ground (arith, governed_facts i.day80_governance i d)

  within_budget-continue_iff :
      (i : AgentTransitionInput) (d : TransitionDecision)
      → within_budget i ≡ ok d
      → (d.action ≡ continue) ↔ HasBudget i
  unfolding within_budget decision admitted
  within_budget-continue_iff i d h = ground (
    arith,
    remaining_steps_lem i.budget,
    available_tokens_lem i.budget i.requested_token_reservation,
    available_cost_lem i.budget i.requested_cost_reservation,
  )

  governed-continue_iff :
      (g : Option InvocationGovernanceStatus) (i : AgentTransitionInput) (d : TransitionDecision)
      → governed g i ≡ ok d
      → (d.action ≡ continue) ↔ (
          (i.day79_result.decision ≡ Loop.continue)
          × ((g ≡ none) ⊎ (g ≡ some allowed_to_day74_admission))
          × HasBudget i)
  unfolding governed supported decision
  governed-continue_iff g i d h = ground (arith, within_budget-continue_iff i d)

  -- A returned candidate goes on exactly if the agent is live, nothing is uncertain, the loop says
  -- to go on, the goal is not verified, no hard loop is detected, the agent is authorized and
  -- governed, and the step, context, token and cost budgets have room.
  pub decide_transition-continue_iff :
      (i : AgentTransitionInput) (d : TransitionDecision)
      → decide_transition i ≡ ok d
      → (d.action ≡ continue) ↔ MayAdvance i
  unfolding decide_transition decision
  decide_transition-continue_iff i d h =
      ground (arith, governed-continue_iff i.day80_governance i d)

  governed-other_actions :
      (g : Option InvocationGovernanceStatus) (i : AgentTransitionInput) (d : TransitionDecision)
      → governed g i ≡ ok d
      → (d.action ≢ noop) × (d.action ≢ reconcile)
  unfolding governed supported within_budget decision
  governed-other_actions g i d h = ground arith

  pub decide_transition-terminal :
      (i : AgentTransitionInput) (d : TransitionDecision)
      → decide_transition i ≡ ok d
      → (d.action ≡ noop) ↔ (is_terminal i.state ≡ true)
  unfolding decide_transition decision
  decide_transition-terminal i d h = ground (arith, governed-other_actions i.day80_governance i d)

  -- A candidate for a live agent reconciles exactly if there is a pending identity or the loop says
  -- to reconcile.
  pub decide_transition-uncertain :
      (i : AgentTransitionInput) (d : TransitionDecision)
      → is_terminal i.state ≡ false
      → decide_transition i ≡ ok d
      → (d.action ≡ reconcile) ↔ (
          ((p : String) × (i.pending_reconciliation_identity ≡ some p))
          ⊎ (i.day79_result.decision ≡ Loop.reconcile))
  unfolding decide_transition decision
  decide_transition-uncertain i d live h =
      ground (arith, governed-other_actions i.day80_governance i d)
