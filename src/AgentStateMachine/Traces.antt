-- ===== src/AgentStateMachine/Traces.antt =====
-- What the agent state store promises over every sequence of decisions, whoever computed them and
-- from whatever snapshot.
use ai_backend_engineer_hand.Prelude.{
  ℕ, suc, String, ◌+◌, ◌≤◌, ◌≡◌, refl, ◌≢◌, ◌⊎◌, inl, inr, Bool, true, false, Result, ok, List, [],
  ◌∷◌, contains, lookup-insert, if◌then◌else◌, ◌&&◌, ◌==◌, arith,
}
use ai_backend_engineer_hand.AgentStateMachine.Types.{
  is_terminal, continue, TransitionApplyStatus, applied, duplicate_replay, transition_action_eq,
}
use ai_backend_engineer_hand.AgentStateMachine.Budget.{BudgetSnapshot}
use ai_backend_engineer_hand.AgentStateMachine.Decide.{TransitionDecision}
use ai_backend_engineer_hand.AgentStateMachine.Store.{AgentStateStore, reserve, apply}
use ai_backend_engineer_hand.AgentStateMachine.Transitions.{
  apply_frame, apply-applied, apply-advances, apply-budget,
}

abbrev pub was_applied : Result TransitionApplyStatus → Bool
was_applied (ok applied) = true
was_applied _ = false

pub run_all : List TransitionDecision → AgentStateStore → AgentStateStore
run_all [] s = s
run_all (d ∷ ds) s = run_all ds (apply d s).1

-- How many decisions are applied, and how many of those go on to a next step.
pub applied_count : List TransitionDecision → AgentStateStore → ℕ
applied_count [] s = 0
applied_count (d ∷ ds) s =
    let rest = applied_count ds (apply d s).1 in
    if was_applied (apply d s).0 then suc rest else rest

pub step_count : List TransitionDecision → AgentStateStore → ℕ
step_count [] s = 0
step_count (d ∷ ds) s =
    let rest = step_count ds (apply d s).1 in
    if was_applied (apply d s).0 && d.action == continue then suc rest else rest

pub record WithinBudget (b : BudgetSnapshot) : Type 0 where
  pub steps : b.steps_used ≤ b.step_limit
  pub tokens : b.settled_tokens + b.held_token_reservations ≤ b.token_limit
  pub cost : b.settled_cost + b.held_cost_reservations ≤ b.cost_limit

-- The two outcomes of a call, with what the store's parts are afterwards.
apply-cases :
    (d : TransitionDecision) (s : AgentStateStore)
    → ((apply d s).0 ≡ ok applied) ⊎ ((was_applied (apply d s).0 ≡ false) × ((apply d s).1 ≡ s))
apply-cases d s = ground (arith, apply_frame d s)

-- No decision takes a budget past its limits.
pub apply-WithinBudget :
    (d : TransitionDecision) (s : AgentStateStore)
    → WithinBudget s.current.budget
    → WithinBudget (apply d s).1.current.budget
unfolding reserve
apply-WithinBudget d s h = elim (apply-cases d s) [
  | inl e ↦ ground (arith, apply-applied d s e, apply-budget d s e)
  | inr same ↦ rw same.1 h
]

-- From a store within its budget, no sequence of decisions takes the steps, the tokens or the cost
-- past their limits.
pub run_all-WithinBudget :
    (ds : List TransitionDecision) (s : AgentStateStore)
    → WithinBudget s.current.budget
    → WithinBudget (run_all ds s).current.budget
unfolding run_all
run_all-WithinBudget [] s h = h
run_all-WithinBudget (d ∷ ds) s h = run_all-WithinBudget ds (apply d s).1 (apply-WithinBudget d s h)

-- The fence counts the applied decisions.
pub run_all-fence_token :
    (ds : List TransitionDecision) (s : AgentStateStore)
    → (run_all ds s).current.fence_token ≡ s.current.fence_token + applied_count ds s
unfolding run_all applied_count
run_all-fence_token [] s = omega arith
run_all-fence_token (d ∷ ds) s = elim (apply-cases d s) [
  | inl e ↦ ground (arith, run_all-fence_token ds (apply d s).1, apply-advances d s e)
  | inr same ↦ ground (arith, run_all-fence_token ds (apply d s).1)
]

step-used :
    (d : TransitionDecision) (s : AgentStateStore)
    → (apply d s).0 ≡ ok applied
    → let b = (apply d s).1.current.budget in
      (b.step_limit ≡ s.current.budget.step_limit)
      × (b.steps_used ≡ s.current.budget.steps_used + (if d.action == continue then 1 else 0))
unfolding reserve
step-used d s e = ground (arith, apply-budget d s e)

-- The agent cannot loop: from a store within its budget, over any sequence of decisions, the steps
-- used before and the next steps that are applied add up to no more than the step limit.
pub run_all-step_limit :
    (ds : List TransitionDecision) (s : AgentStateStore)
    → WithinBudget s.current.budget
    → s.current.budget.steps_used + step_count ds s ≤ s.current.budget.step_limit
unfolding step_count
run_all-step_limit [] s h = omega arith
run_all-step_limit (d ∷ ds) s h = elim (apply-cases d s) [
  | inl e ↦
      ground
        (arith, run_all-step_limit ds (apply d s).1 (apply-WithinBudget d s h), step-used d s e)
  | inr same ↦ rw same.0 (rw same.1 (run_all-step_limit ds s h))
]

-- No sequence of decisions changes the store of a terminal agent.
run_all-terminal :
    (ds : List TransitionDecision) (s : AgentStateStore)
    → is_terminal s.current.state ≡ true
    → run_all ds s ≡ s
unfolding run_all
run_all-terminal [] s h = refl
run_all-terminal (d ∷ ds) s h = elim (apply-cases d s) [
  | inl e ↦ ground (arith, apply-applied d s e)
  | inr same ↦ rw same.1 (run_all-terminal ds s h)
]

-- Fencing: once a decision is applied, no decision that expects the fence of before, or an earlier
-- one, is applied after any sequence of decisions.
pub stale_never_applied :
    (d late : TransitionDecision) (ds : List TransitionDecision) (s : AgentStateStore)
    → (apply d s).0 ≡ ok applied
    → late.expected_fence_token ≤ s.current.fence_token
    → (apply late (run_all ds (apply d s).1)).0 ≢ ok applied
stale_never_applied d late ds s e old h = omega (
  arith,
  (apply-advances d s e).0,
  run_all-fence_token ds (apply d s).1,
  (apply-applied late (run_all ds (apply d s).1) h).0.fence_token,
)

apply-keeps :
    (id : String) (d : TransitionDecision) (s : AgentStateStore)
    → contains id s.applied_decisions ≡ true
    → contains id (apply d s).1.applied_decisions ≡ true
unfolding apply
apply-keeps id d s h = ground (arith, lookup-insert d.transition_id id d s.applied_decisions)

run_all-keeps :
    (id : String) (ds : List TransitionDecision) (s : AgentStateStore)
    → contains id s.applied_decisions ≡ true
    → contains id (run_all ds s).applied_decisions ≡ true
unfolding run_all
run_all-keeps id [] s h = h
run_all-keeps id (d ∷ ds) s h = run_all-keeps id ds (apply d s).1 (apply-keeps id d s h)

apply-known :
    (d : TransitionDecision) (s : AgentStateStore)
    → contains d.transition_id s.applied_decisions ≡ true
    → apply d s ≡ (ok duplicate_replay, s)
unfolding apply
apply-known d s h = ground arith

-- Replaying an applied decision, at once or after any sequence of decisions, is reported as a
-- replay and changes nothing.
replay_is_duplicate :
    (d : TransitionDecision) (ds : List TransitionDecision) (s : AgentStateStore)
    → (apply d s).0 ≡ ok applied
    → let s' = run_all ds (apply d s).1 in apply d s' ≡ (ok duplicate_replay, s')
replay_is_duplicate d ds s e =
    apply-known d (run_all ds (apply d s).1)
      (run_all-keeps d.transition_id ds (apply d s).1 (apply-advances d s e).4)
