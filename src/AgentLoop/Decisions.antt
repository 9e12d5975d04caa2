-- ===== src/AgentLoop/Decisions.antt =====
-- What `decide_control` promises: it never raises, its result satisfies the result's own checks, and
-- its decision is exactly the one that the facts of the step call for.
use ai_backend_engineer_hand.Prelude.{
  String, ◌<◌, ◌≡◌, refl, ◌≢◌, ◌↔◌, ◌⊎◌, true, false, none, some, ok, length, is_some, is_ok, leb,
  if◌then◌else◌, ◌==◌, arith, Sha256, prefixed-ne_empty, ne_by_test,
}
use text.Mathlib.Text.{◌==◌ as str_eq}
use ai_backend_engineer_hand.AgentLoop.Types.{
  ControlDecision, continue, complete, wait, fail, reconcile, RuntimeStatus, completed, rejected,
  blocked_pre_dispatch, pending_reconciliation, RuntimeResult, AgentStepInput, NextStepRequest,
  AgentStepResult, check_step_result, control_decision_eq,
}
use ai_backend_engineer_hand.AgentLoop.Decide.{
  stable_id, decision_id_of, next_step_of, result, decide_control,
}

-- The facts under which the loop goes on.
pub record MayContinue (s : AgentStepInput) : Type 0 where
  pub live : s.job_is_terminal ≡ false
  pub certain : s.pending_reconciliation_identity ≡ none
  pub runtime_ok :
      (s.runtime_result ≡ none)
      ⊎ ((r : RuntimeResult) × (s.runtime_result ≡ some r) × (r.status ≡ completed))
  pub unfinished : length s.verified_observation_ids < s.goal_required_observations
  pub unblocked : s.waiting_for ≡ none

-- The outcome of an earlier effect is not known.
abbrev pub IsUncertain : AgentStepInput → Type 0
IsUncertain s =
    ((p : String) × (s.pending_reconciliation_identity ≡ some p))
    ⊎ ((r : RuntimeResult) × (s.runtime_result ≡ some r) × (r.status ≡ pending_reconciliation))

-- A result that belongs to its step.
pub record BelongsTo (s : AgentStepInput) (r : AgentStepResult) : Type 0 where
  pub tenant_id : r.tenant_id ≡ s.tenant_id
  pub job_id : r.job_id ≡ s.job_id
  pub step_id : r.step_id ≡ s.current_step_id
  pub source_attempt_id : r.source_attempt_id ≡ s.runtime_attempt_id

module _ ⦃sha : Sha256⦄ where
  -- What is known of the result of a step for which `d` was decided.
  pub record IsResultOf (s : AgentStepInput) (d : ControlDecision) (r : AgentStepResult)
      : Type 0 where
    pub belongs : BelongsTo s r
    pub decision : r.decision ≡ d
    pub checked : check_step_result r ≡ ok r
    pub next_step :
        r.next_step ≡ (if d == continue then some (next_step_of s r.control_decision_id) else none)

  decision_id_of-ne_empty :
      (s : AgentStepInput) (d : ControlDecision) (reason : String) → decision_id_of s d reason ≢ ""
  unfolding decision_id_of stable_id
  decision_id_of-ne_empty s d reason =
      prefixed-ne_empty "decision" _ (ne_by_test "decision" "" refl)

  -- With a reason that is not empty the record passes its checks.
  result-is_ok :
      (s : AgentStepInput) (d : ControlDecision) (reason : String)
      → str_eq reason "" ≡ false
      → is_ok (result s d reason) ≡ true
  unfolding result check_step_result
  result-is_ok s d reason h =
      ground (arith, decision_id_of-ne_empty s d reason, ne_by_test reason "" h)

  -- What a returned record says of its step and its decision.
  result_facts :
      (s : AgentStepInput) (d : ControlDecision) (reason : String) (r : AgentStepResult)
      → result s d reason ≡ ok r
      → IsResultOf s d r
  unfolding result check_step_result
  result_facts s d reason r h = ground arith

  -- `decide_control` returns a result for every step: no branch trips over the result's own checks.
  pub decide_control-total : (s : AgentStepInput) → is_ok (decide_control s) ≡ true
  unfolding decide_control
  decide_control-total s = ground (
    arith,
    result-is_ok s complete "job_already_terminal" refl,
    result-is_ok s reconcile "external_outcome_unknown" refl,
    result-is_ok s reconcile "runtime_pending_reconciliation" refl,
    result-is_ok s fail "runtime_explicit_non_success" refl,
    result-is_ok s complete "goal_satisfied_by_verified_observations" refl,
    result-is_ok s wait "known_prerequisite_pending" refl,
    result-is_ok s continue "goal_not_yet_satisfied" refl,
  )

  -- The decision alone, for the equivalences below.
  decided_by_status : RuntimeStatus → ControlDecision → ControlDecision
  decided_by_status pending_reconciliation progress = reconcile
  decided_by_status rejected progress = fail
  decided_by_status blocked_pre_dispatch progress = fail
  decided_by_status completed progress = progress

  decided : AgentStepInput → ControlDecision
  unfolding decided_by_status
  decided s =
      let progress : ControlDecision =
        if leb s.goal_required_observations (length s.verified_observation_ids)
        then complete
        else if is_some s.waiting_for
        then wait
        else continue in
      if s.job_is_terminal
      then complete
      else if is_some s.pending_reconciliation_identity
      then reconcile
      else elim s.runtime_result [ none ↦ progress | some r ↦ decided_by_status r.status progress ]

  decide_control_facts :
      (s : AgentStepInput) (r : AgentStepResult)
      → decide_control s ≡ ok r
      → IsResultOf s (decided s) r
  unfolding decide_control decided
  decide_control_facts s r h = ground (
    arith,
    result_facts s complete "job_already_terminal" r,
    result_facts s reconcile "external_outcome_unknown" r,
    result_facts s reconcile "runtime_pending_reconciliation" r,
    result_facts s fail "runtime_explicit_non_success" r,
    result_facts s complete "goal_satisfied_by_verified_observations" r,
    result_facts s wait "known_prerequisite_pending" r,
    result_facts s continue "goal_not_yet_satisfied" r,
  )

  -- Whatever is decided, the result names the tenant, job, step and attempt of its input, and passes
  -- the checks of its own constructor.
  pub decide_control-belongs :
      (s : AgentStepInput) (r : AgentStepResult)
      → decide_control s ≡ ok r
      → BelongsTo s r × (check_step_result r ≡ ok r)
  decide_control-belongs s r h = ground (arith, decide_control_facts s r h)

  -- A returned decision goes on exactly if the job is live, nothing is uncertain, the runtime has
  -- no result or completed, the goal is not met and nothing is waited for.
  decide_control-continue_iff :
      (s : AgentStepInput) (r : AgentStepResult)
      → decide_control s ≡ ok r
      → (r.decision ≡ continue) ↔ MayContinue s
  unfolding decided
  decide_control-continue_iff s r h = ground (arith, decide_control_facts s r h)

  -- A live step is reconciled exactly if a pending identity or the runtime's answer says that the
  -- outcome is unknown, whatever has been observed.
  pub decide_control-reconcile_iff :
      (s : AgentStepInput) (r : AgentStepResult)
      → s.job_is_terminal ≡ false
      → decide_control s ≡ ok r
      → (r.decision ≡ reconcile) ↔ IsUncertain s
  unfolding decided
  decide_control-reconcile_iff s r live h = ground (arith, decide_control_facts s r h)

  -- A next step is proposed for the decision to go on only, and it descends from the current step.
  pub decide_control-next_step :
      (s : AgentStepInput) (r : AgentStepResult) (n : NextStepRequest)
      → decide_control s ≡ ok r
      → r.next_step ≡ some n
      → (r.decision ≡ continue)
        × (n.tenant_id ≡ s.tenant_id)
        × (n.job_id ≡ s.job_id)
        × (n.parent_step_id ≡ s.current_step_id)
        × (n.control_decision_id ≡ r.control_decision_id)
        × (n.verified_observation_ids ≡ s.verified_observation_ids)
  unfolding next_step_of
  decide_control-next_step s r n h e = ground (arith, decide_control_facts s r h)
