-- ===== src/AgentStateMachine/Store.antt =====
-- `InMemoryAgentStateStore` of projects/ai-agent/src/agent_state_machine.py.
use ai_backend_engineer_hand.Prelude.{
  ℕ, String, ◌+◌, Bool, not, ◌||◌, Option, none, some, [], Result, ok, raised, assertion_error,
  ◌==◌, string_eq, nat_eq, ltb_ℤ, leb_ℤ, pos, Dict, insert, contains, if◌then◌else◌,
}
use ai_backend_engineer_hand.AgentLoop.Types.{NextStepRequest}
use ai_backend_engineer_hand.AgentStateMachine.Types.{
  AgentState, agent_state_eq, is_terminal, TransitionAction, continue, noop, TransitionApplyStatus,
  applied, duplicate_replay, noop_terminal, noop_stale, reservation_conflict, not_applicable,
}
use ai_backend_engineer_hand.AgentStateMachine.Budget.{
  BudgetSnapshot, remaining_steps, available_tokens, available_cost,
}
use ai_backend_engineer_hand.AgentStateMachine.Decide.{TransitionDecision}

pub record AuthoritativeAgentRecord : Type 0 where
  pub tenant_id : String
  pub job_id : String
  pub current_step_id : String
  pub state : AgentState
  pub fence_token : ℕ
  pub budget : BudgetSnapshot

-- The store: `record`, under the name `current`, and `_applied`.
pub record AgentStateStore : Type 0 where
  pub current : AuthoritativeAgentRecord
  pub applied_decisions : Dict TransitionDecision

-- The budget tests of a CONTINUE.
unfoldable pub reservation_fits : TransitionDecision → BudgetSnapshot → Bool
reservation_fits d b = not (
    leb_ℤ (remaining_steps b) (pos 0)
    || ltb_ℤ (available_tokens b) (pos d.requested_token_reservation)
    || ltb_ℤ (available_cost b) (pos d.requested_cost_reservation))

-- The budget with one more step used and the reservations held.
unfoldable pub reserve : TransitionDecision → BudgetSnapshot → BudgetSnapshot
reserve d b = record b {
  steps_used = b.steps_used + 1;
  held_token_reservations = b.held_token_reservations + d.requested_token_reservation;
  held_cost_reservations = b.held_cost_reservations + d.requested_cost_reservation;
}

-- The writes of a CONTINUE, after its tests.
apply_next :
    Option NextStepRequest
    → TransitionDecision
    → AgentStateStore
    → Result TransitionApplyStatus × AgentStateStore
apply_next none d s = (raised assertion_error, s)
apply_next (some next) d s = (
  ok applied,
  record {
    current = record (s.current) {
      current_step_id = next.step_id;
      state = d.proposed_next_state;
      fence_token = s.current.fence_token + 1;
      budget = reserve d s.current.budget;
    };
    applied_decisions = insert d.transition_id d s.applied_decisions;
  },
)

-- The writes of the other actions.
apply_state : TransitionDecision → AgentStateStore → Result TransitionApplyStatus × AgentStateStore
apply_state d s = (
  ok applied,
  record {
    current = record (s.current) {
      state = d.proposed_next_state;
      fence_token = s.current.fence_token + 1;
    };
    applied_decisions = insert d.transition_id d s.applied_decisions;
  },
)

-- What `apply` does once the decision is known to be current.
apply_action :
    TransitionAction
    → TransitionDecision
    → AgentStateStore
    → Result TransitionApplyStatus × AgentStateStore
apply_action continue d s =
    if not (reservation_fits d s.current.budget)
    then (ok reservation_conflict, s)
    else apply_next d.next_step d s
apply_action noop d s = (ok not_applicable, s)
apply_action other d s = apply_state d s

unfoldable pub apply :
    TransitionDecision → AgentStateStore → Result TransitionApplyStatus × AgentStateStore
unfolding apply_action apply_next apply_state reserve
apply d s =
    if contains d.transition_id s.applied_decisions
    then (ok duplicate_replay, s)
    else if not (s.current.tenant_id == d.tenant_id) || not (s.current.job_id == d.job_id)
    then (ok noop_stale, s)
    else if is_terminal s.current.state
    then (ok noop_terminal, s)
    else if not (s.current.state == d.expected_state)
        || not (s.current.current_step_id == d.step_id)
        || not (s.current.fence_token == d.expected_fence_token)
    then (ok noop_stale, s)
    else apply_action d.action d s

-- `InMemoryAgentStateStore(record)`.
unfoldable pub new_store : AuthoritativeAgentRecord → AgentStateStore
new_store r = record { current = r; applied_decisions = [] }
