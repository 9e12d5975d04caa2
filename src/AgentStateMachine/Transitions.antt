-- ===== src/AgentStateMachine/Transitions.antt =====
-- What one `apply` of the agent state store does: when a decision is applied, what it changes, and
-- that nothing else changes anything.
use ai_backend_engineer_hand.Prelude.{
  ◌+◌, ◌≤◌, ◌<◌, ◌≡◌, ◌≢◌, ◌↔◌, ◌⊎◌, inl, inr, true, false, some, Option-cases, ok, contains,
  lookup-insert, arith,
}
use ai_backend_engineer_hand.AgentLoop.Types.{NextStepRequest}
use ai_backend_engineer_hand.AgentStateMachine.Types.{is_terminal, continue, noop, applied}
use ai_backend_engineer_hand.AgentStateMachine.Budget.{BudgetSnapshot}
use ai_backend_engineer_hand.AgentStateMachine.Budget.Tests.{
  remaining_steps_lem, available_tokens_lem, available_cost_lem,
}
use ai_backend_engineer_hand.AgentStateMachine.Decide.{TransitionDecision}
use ai_backend_engineer_hand.AgentStateMachine.Store.{
  AgentStateStore, reservation_fits, reserve, apply,
}

-- The budget has room for one more step and for the reservations of a decision.
pub record Fits (d : TransitionDecision) (b : BudgetSnapshot) : Type 0 where
  pub steps : b.steps_used < b.step_limit
  pub tokens :
      b.settled_tokens + b.held_token_reservations + d.requested_token_reservation ≤ b.token_limit
  pub cost : b.settled_cost + b.held_cost_reservations + d.requested_cost_reservation ≤ b.cost_limit

pub reservation_fits_iff :
    (d : TransitionDecision) (b : BudgetSnapshot) → (reservation_fits d b ≡ true) ↔ Fits d b
unfolding reservation_fits
reservation_fits_iff d b = ground (
  arith,
  remaining_steps_lem b,
  available_tokens_lem b d.requested_token_reservation,
  available_cost_lem b d.requested_cost_reservation,
)

-- A decision that is current for the store.
pub record IsCurrent (d : TransitionDecision) (s : AgentStateStore) : Type 0 where
  pub fresh : contains d.transition_id s.applied_decisions ≡ false
  pub tenant_id : s.current.tenant_id ≡ d.tenant_id
  pub job_id : s.current.job_id ≡ d.job_id
  pub live : is_terminal s.current.state ≡ false
  pub state : s.current.state ≡ d.expected_state
  pub step_id : s.current.current_step_id ≡ d.step_id
  pub fence_token : s.current.fence_token ≡ d.expected_fence_token

-- A status other than `applied`, and an exception, leave the store as it was.
pub apply_frame :
    (d : TransitionDecision) (s : AgentStateStore) → (apply d s).0 ≢ ok applied → (apply d s).1 ≡ s
unfolding apply
apply_frame d s h = ground arith

-- Only a current decision is applied, one that goes on only if the budget has room for it.
pub apply-applied :
    (d : TransitionDecision) (s : AgentStateStore)
    → (apply d s).0 ≡ ok applied
    → IsCurrent d s × (d.action ≢ noop) × (d.action ≡ continue → Fits d s.current.budget)
unfolding apply
apply-applied d s h = ground (arith, reservation_fits_iff d s.current.budget)

-- A current decision that goes on with a next step, from a budget with room, is applied.
pub apply-continue :
    (d : TransitionDecision) (s : AgentStateStore) (next : NextStepRequest)
    → IsCurrent d s
    → d.action ≡ continue
    → d.next_step ≡ some next
    → Fits d s.current.budget
    → (apply d s).0 ≡ ok applied
unfolding apply
apply-continue d s next c a n f = ground (arith, reservation_fits_iff d s.current.budget)

-- Every other current decision but NOOP is applied.
pub apply-settle :
    (d : TransitionDecision) (s : AgentStateStore)
    → IsCurrent d s
    → d.action ≢ continue
    → d.action ≢ noop
    → (apply d s).0 ≡ ok applied
unfolding apply
apply-settle d s c a n = ground arith

-- An applied decision raises the fence by one, sets the proposed state, keeps the tenant and the job,
-- and is remembered.
pub apply-advances :
    (d : TransitionDecision) (s : AgentStateStore)
    → (apply d s).0 ≡ ok applied
    → let s' = (apply d s).1 in
      (s'.current.fence_token ≡ s.current.fence_token + 1)
      × (s'.current.state ≡ d.proposed_next_state)
      × (s'.current.tenant_id ≡ s.current.tenant_id)
      × (s'.current.job_id ≡ s.current.job_id)
      × (contains d.transition_id s'.applied_decisions ≡ true)
unfolding apply
apply-advances d s h = elim (Option-cases d.next_step) [
  | inl e ↦ ground (arith, lookup-insert d.transition_id d.transition_id d s.applied_decisions)
  | inr (next, e) ↦
      ground (arith, lookup-insert d.transition_id d.transition_id d s.applied_decisions)
]

-- What is spent: a step that goes on is charged, anything else leaves the budget alone.
pub apply-budget :
    (d : TransitionDecision) (s : AgentStateStore)
    → (apply d s).0 ≡ ok applied
    → let b = (apply d s).1.current.budget in
      ((d.action ≡ continue) × (b ≡ reserve d s.current.budget))
      ⊎ ((d.action ≢ continue) × (b ≡ s.current.budget))
unfolding apply
apply-budget d s h = ground arith
