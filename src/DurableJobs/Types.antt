-- ===== src/DurableJobs/Types.antt =====
-- The enums of projects/ai-agent/src/durable_agent_jobs.py.
use ai_backend_engineer_hand.Prelude.{String, Eq, holds}

pub data ExternalCertainty : Type 0 where
  definitely_not_dispatched outcome_unknown verified_terminal : ExternalCertainty

unfoldable pub ExternalCertainty-discrete : Discrete ExternalCertainty
ExternalCertainty-discrete = hlevel

instance abbrev pub external_certainty_eq : Eq ExternalCertainty
external_certainty_eq = record { beq = λ a b. holds (ExternalCertainty-discrete a b) }

pub data DurableRecoveryDecision : Type 0 where
  resume retry replan reconcile repair settle compensate escalate blocked terminal_noop
        reject_stale :
      DurableRecoveryDecision

-- The `.value` of a member.
unfoldable pub recovery_value : DurableRecoveryDecision → String
recovery_value resume = "RESUME"
recovery_value retry = "RETRY"
recovery_value replan = "REPLAN"
recovery_value reconcile = "RECONCILE"
recovery_value repair = "REPAIR"
recovery_value settle = "SETTLE"
recovery_value compensate = "COMPENSATE"
recovery_value escalate = "ESCALATE"
recovery_value blocked = "BLOCKED"
recovery_value terminal_noop = "TERMINAL_NOOP"
recovery_value reject_stale = "REJECT_STALE"

pub data ReservationStatus : Type 0 where
  held settled released : ReservationStatus

pub data ReservationAction : Type 0 where
  no_change keep_held release settle_verified : ReservationAction

pub data OutboxAction : Type 0 where
  no_outbox create_recovery_intent publish_original_intent : OutboxAction

pub data RecoveryApplyStatus : Type 0 where
  applied duplicate_replay noop_stale noop_terminal not_applicable : RecoveryApplyStatus

pub data DeliveryStatus : Type 0 where
  new duplicate identity_conflict : DeliveryStatus
