-- ===== src/AgentLoop/Store.antt =====
-- `InMemoryControlStore` and `orchestrate_next_step` of projects/ai-agent/src/agent_loop.py.
use ai_backend_engineer_hand.Prelude.{
  ℕ, String, Bool, not, ◌||◌, Option, none, some, Result, ok, raised, value_error, assertion_error,
  ◌==◌, string_eq, [], ◌∷◌, raise_if, ◌>>◌, all_given, Dict, lookup, insert, contains,
  if◌then◌else◌,
}
use ai_backend_engineer_hand.AgentLoop.Types.{
  continue, control_decision_eq, ControlApplyStatus, created, duplicate_replay, noop_stale,
  noop_terminal, not_applicable, RuntimeResult, NextStepRequest, AgentStepResult,
}

pub record AgentJobState : Type 0 where
  pub tenant_id : String
  pub job_id : String
  pub current_step_id : String
  pub is_terminal : Bool

-- `AgentJobState.__post_init__`.
unfoldable pub check_job_state : AgentJobState → Result AgentJobState
check_job_state j = do
  raise_if (not (all_given (j.tenant_id ∷ j.job_id ∷ j.current_step_id ∷ [])))
      "tenant_id, job_id, and current_step_id are required"
  ok j

-- The store: its state and `_next_steps_by_decision`.
pub record ControlStore : Type 0 where
  pub state : AgentJobState
  pub next_steps : Dict NextStepRequest

-- What is written after the guards; the `assert` comes before the writes.
create_next :
    Option NextStepRequest
    → AgentStepResult
    → ControlStore
    → Result ControlApplyStatus × ControlStore
create_next none r c = (raised assertion_error, c)
create_next (some next) r c = (
  ok created,
  record {
    state = record (c.state) { current_step_id = next.step_id };
    next_steps = insert r.control_decision_id next c.next_steps;
  },
)

-- `apply_continue`.
unfoldable pub apply_continue :
    AgentStepResult → ControlStore → Result ControlApplyStatus × ControlStore
unfolding create_next
apply_continue r c =
    if not (r.tenant_id == c.state.tenant_id) || not (r.job_id == c.state.job_id)
    then (raised (value_error "control result does not match store identity"), c)
    else if not (r.decision == continue)
    then (ok not_applicable, c)
    else if c.state.is_terminal
    then (ok noop_terminal, c)
    else if contains r.control_decision_id c.next_steps
    then (ok duplicate_replay, c)
    else if not (c.state.current_step_id == r.step_id)
    then (ok noop_stale, c)
    else create_next r.next_step r c

-- `next_step_for`.
unfoldable pub next_step_for : String → ControlStore → Option NextStepRequest
next_step_for decision_id c = lookup decision_id c.next_steps

-- `orchestrate_next_step`: the runtime behind `AgentRuntimePort` is a parameter, a call that changes
-- a world `W` and returns a value or raises.
module _ {W : Type 0} (execute_step : NextStepRequest → W → Result RuntimeResult × W) where
  -- What follows a new step: its execution.
  run_created :
      Option NextStepRequest
      → ControlStore
      → W
      → Result (ControlApplyStatus × Option RuntimeResult) × ControlStore × W
  run_created none c w = (raised assertion_error, c, w)
  run_created (some next) c w =
      let (outcome, w') = execute_step next w in
      (elim outcome [ ok r ↦ ok (created, some r) | raised e ↦ raised e ], c, w')

  unfoldable pub orchestrate_next_step :
      AgentStepResult
      → ControlStore
      → W
      → Result (ControlApplyStatus × Option RuntimeResult) × ControlStore × W
  unfolding run_created
  orchestrate_next_step r c w =
      let (applied, c') = apply_continue r c in
      elim applied [
        | raised e ↦ (raised e, c', w)
        | ok created ↦ run_created r.next_step c' w
        | ok other ↦ (ok (other, none), c', w)
      ]

-- The store takes no lock, so other calls may run between any two accesses of one: `others n` is what
-- they do to the store before its access `n`. Tenant and job of the state are never written.
module _ (others : ℕ → ControlStore → ControlStore) where
  -- The two writes.
  unfoldable pub write_overlapped :
      Option NextStepRequest
      → AgentStepResult
      → ControlStore
      → Result ControlApplyStatus × ControlStore
  write_overlapped none r c = (raised assertion_error, c)
  write_overlapped (some next) r c =
      let before = others 4 c in
      let written = record before {
        next_steps = insert r.control_decision_id next before.next_steps;
      } in
      let after = others 5 written in
      (ok created, record after { state = record (after.state) { current_step_id = next.step_id } })

  -- The reads, one after another, and the writes.
  unfoldable pub apply_overlapped :
      AgentStepResult → ControlStore → Result ControlApplyStatus × ControlStore
  apply_overlapped r c =
      let at_terminal = others 1 c in
      let at_decision = others 2 at_terminal in
      let at_step = others 3 at_decision in
      if not (r.tenant_id == c.state.tenant_id) || not (r.job_id == c.state.job_id)
      then (raised (value_error "control result does not match store identity"), c)
      else if not (r.decision == continue)
      then (ok not_applicable, c)
      else if at_terminal.state.is_terminal
      then (ok noop_terminal, at_terminal)
      else if contains r.control_decision_id at_decision.next_steps
      then (ok duplicate_replay, at_decision)
      else if not (at_step.state.current_step_id == r.step_id)
      then (ok noop_stale, at_step)
      else write_overlapped r.next_step r at_step
