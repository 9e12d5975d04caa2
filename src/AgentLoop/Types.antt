-- ===== src/AgentLoop/Types.antt =====
-- The records and enums of projects/ai-agent/src/agent_loop.py, with the checks of their
-- `__post_init__` as functions that return the record or raise.
use ai_backend_engineer_hand.Prelude.{
  ℕ, String, Bool, not, ◌&&◌, ◌||◌, Option, none, some, List, [], ◌∷◌, Result, ok, raise_if, ◌>>◌,
  Eq, ◌==◌, holds, string_eq, ltb, all_given, all_distinct, is_some, same_truth,
}

pub data ControlDecision : Type 0 where
  continue complete wait fail reconcile : ControlDecision

unfoldable pub ControlDecision-discrete : Discrete ControlDecision
ControlDecision-discrete = hlevel

instance abbrev pub control_decision_eq : Eq ControlDecision
control_decision_eq = record { beq = λ a b. holds (ControlDecision-discrete a b) }

-- The `.value` of a member.
unfoldable pub decision_value : ControlDecision → String
decision_value continue = "CONTINUE"
decision_value complete = "COMPLETE"
decision_value wait = "WAIT"
decision_value fail = "FAIL"
decision_value reconcile = "RECONCILE"

pub data ControlApplyStatus : Type 0 where
  created duplicate_replay noop_stale noop_terminal not_applicable : ControlApplyStatus

-- `RuntimeStatus` and the part of `RuntimeResult` that the loop reads (application_runtime.py).
pub data RuntimeStatus : Type 0 where
  completed rejected blocked_pre_dispatch pending_reconciliation : RuntimeStatus

pub record RuntimeResult : Type 0 where
  pub job_id : String
  pub attempt_id : String
  pub status : RuntimeStatus

-- Every integer of the loop is a count, so it is a natural number.
pub record AgentStepInput : Type 0 where
  pub tenant_id : String
  pub job_id : String
  pub current_step_id : String
  pub runtime_attempt_id : String
  pub goal_required_observations : ℕ
  pub verified_observation_ids : List String
  pub job_is_terminal : Bool
  pub runtime_result : Option RuntimeResult
  pub pending_reconciliation_identity : Option String
  pub waiting_for : Option String
  pub model_proposal : Option String

abbrev result_fits : Option RuntimeResult → String → String → Bool
result_fits none job attempt = Bool.true
result_fits (some r) job attempt = r.job_id == job && r.attempt_id == attempt

-- `AgentStepInput.__post_init__`.
unfoldable pub check_step_input : AgentStepInput → Result AgentStepInput
check_step_input s = do
  raise_if (not (all_given (s.tenant_id ∷ s.job_id ∷ s.current_step_id ∷ [])))
      "tenant_id, job_id, and current_step_id are required"
  raise_if (s.runtime_attempt_id == "") "runtime_attempt_id is required"
  raise_if (ltb s.goal_required_observations 1) "goal_required_observations must be positive"
  raise_if (not (all_distinct s.verified_observation_ids))
      "verified observation identities must be unique"
  raise_if (not (result_fits s.runtime_result s.job_id s.runtime_attempt_id))
      "RuntimeResult identity does not match Agent step"
  ok s

pub record NextStepRequest : Type 0 where
  pub tenant_id : String
  pub job_id : String
  pub step_id : String
  pub parent_step_id : String
  pub runtime_attempt_id : String
  pub control_decision_id : String
  pub verified_observation_ids : List String

pub record AgentStepResult : Type 0 where
  pub tenant_id : String
  pub job_id : String
  pub step_id : String
  pub source_attempt_id : String
  pub control_decision_id : String
  pub decision : ControlDecision
  pub reason : String
  pub next_step : Option NextStepRequest

-- `AgentStepResult.__post_init__`.
unfoldable pub check_step_result : AgentStepResult → Result AgentStepResult
check_step_result r = do
  raise_if (r.reason == "" || r.control_decision_id == "")
      "reason and control_decision_id are required"
  raise_if (not (same_truth (r.decision == continue) (is_some r.next_step)))
      "only CONTINUE must carry exactly one next step"
  ok r
