-- ===== src/DurableJobs/Records.antt =====
-- The records of projects/ai-agent/src/durable_agent_jobs.py, with the checks of their
-- `__post_init__`. Versions, fences, limits and times are natural numbers, which their checks ask for
-- or which the code only counts up and compares; a reported usage is an integer and may be negative.
use ai_backend_engineer_hand.Prelude.{
  ℕ, String, Bool, false, not, ◌||◌, Option, none, some, List, [], ◌∷◌, Result, ok, raise_if, ◌>>◌,
  ◌==◌, string_eq, ltb, all_given, all_distinct, ℤ,
}
use ai_backend_engineer_hand.AgentStateMachine.Types.{AgentState}
use ai_backend_engineer_hand.DurableJobs.Types.{
  ExternalCertainty, DurableRecoveryDecision, ReservationStatus, ReservationAction, OutboxAction,
}

pub record ExecutionBindings : Type 0 where
  pub controller_release : String
  pub prompt_binding : String
  pub provider_binding : String
  pub tool_binding : String
  pub policy_binding : String

-- `ExecutionBindings.__post_init__`.
unfoldable pub check_bindings : ExecutionBindings → Result ExecutionBindings
check_bindings b = do
  raise_if
      (not (
        all_given (
          b.controller_release ∷ b.prompt_binding ∷ b.provider_binding ∷ b.tool_binding
          ∷ b.policy_binding ∷ [])))
      "all execution bindings are required"
  ok b

pub record DurableCheckpoint : Type 0 where
  pub tenant_id : String
  pub job_id : String
  pub step_id : String
  pub attempt_id : String
  pub checkpoint_id : String
  pub checkpoint_version : ℕ
  pub authoritative_state : AgentState
  pub state_version : ℕ
  pub fence_token : ℕ
  pub lease_generation : ℕ
  pub bindings : ExecutionBindings
  pub progress_fingerprint : String
  pub verified_observation_ids : List String
  pub reservation_ids : List String
  pub pending_reconciliation_ids : List String
  pub previous_checkpoint_id : Option String

-- `DurableCheckpoint.__post_init__`; its versions are natural numbers.
unfoldable pub check_checkpoint : DurableCheckpoint → Result DurableCheckpoint
check_checkpoint c = do
  raise_if
      (not (
        all_given (
          c.tenant_id ∷ c.job_id ∷ c.step_id ∷ c.attempt_id ∷ c.checkpoint_id
          ∷ c.progress_fingerprint ∷ [])))
      "checkpoint identity and progress are required"
  raise_if (not (all_distinct c.verified_observation_ids))
      "verified observation identities must be unique"
  ok c

pub record ReservationRecord : Type 0 where
  pub reservation_id : String
  pub attempt_id : String
  pub reserved_units : ℕ
  pub status : ReservationStatus
  pub settled_units : Option ℕ
  pub released_units : ℕ

-- `settled_units is not None and not settled_units <= reserved_units`.
abbrev pub overdrawn : Option ℕ → ℕ → Bool
overdrawn none reserved = false
overdrawn (some n) reserved = ltb reserved n

-- `ReservationRecord.__post_init__`; its units are natural numbers.
unfoldable pub check_reservation : ReservationRecord → Result ReservationRecord
check_reservation r = do
  raise_if (r.reservation_id == "" || r.attempt_id == "") "reservation identity is required"
  raise_if (overdrawn r.settled_units r.reserved_units) "settled units must fit reservation"
  ok r

pub record OutboxIntent : Type 0 where
  pub event_id : String
  pub job_id : String
  pub step_id : String
  pub attempt_id : String
  pub event_type : String
  pub published_at_epoch_ms : Option ℕ

pub record RecoveryOperation : Type 0 where
  pub recovery_id : String
  pub source_attempt_id : String
  pub recovery_generation : ℕ
  pub attempts_used : ℕ
  pub attempt_limit : ℕ
  pub deadline_epoch_ms : ℕ
  pub last_evidence_fingerprint : Option String

unfoldable pub automatic_recovery_available : RecoveryOperation → Bool
automatic_recovery_available o = ltb o.attempts_used o.attempt_limit

pub record DurableAgentJobRecord : Type 0 where
  pub tenant_id : String
  pub job_id : String
  pub current_step_id : String
  pub current_attempt_id : String
  pub state : AgentState
  pub state_version : ℕ
  pub fence_token : ℕ
  pub lease_owner : Option String
  pub lease_expiry_epoch_ms : Option ℕ
  pub lease_generation : ℕ
  pub current_checkpoint : DurableCheckpoint
  pub reservations : List ReservationRecord
  pub recovery_operations : List RecoveryOperation
  pub outbox_intents : List OutboxIntent
  pub audit_events : List String

pub record RecoveryRequest : Type 0 where
  pub recovery_id : String
  pub tenant_id : String
  pub job_id : String
  pub step_id : String
  pub attempt_id : String
  pub checkpoint_id : String
  pub expected_state : AgentState
  pub expected_state_version : ℕ
  pub expected_fence_token : ℕ
  pub now_epoch_ms : ℕ
  pub external_certainty : ExternalCertainty
  pub current_authorization : Bool
  pub original_binding_currently_allowed : Bool
  pub internal_repair_required : Bool
  pub verified_effect_unwanted : Bool
  pub verified_usage_units : Option ℤ

pub record DurableRecoveryCandidate : Type 0 where
  pub phase : String
  pub status : String
  pub recovery_id : String
  pub tenant_id : String
  pub job_id : String
  pub step_id : String
  pub attempt_id : String
  pub checkpoint_id : String
  pub expected_state : AgentState
  pub expected_state_version : ℕ
  pub expected_fence_token : ℕ
  pub decision : DurableRecoveryDecision
  pub recovery_reason : String
  pub next_state : AgentState
  pub reservation_action : ReservationAction
  pub outbox_action : OutboxAction
  pub evidence : List String
  pub verified_usage_units : Option ℤ
