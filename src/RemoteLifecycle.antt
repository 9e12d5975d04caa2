-- ===== src/RemoteLifecycle.antt =====
-- Evidence on failed remote attempts: projects/ai-agent/src/mcp_remote_lifecycle.py, and
-- `DispatchCertainty` of projects/ai-agent/src/mcp_client_transport.py.
pub mod Deadline
pub mod Cancellations
mod Examples
use ai_backend_engineer_hand.Prelude.{
  ℕ, String, ◌≡◌, Bool, true, false, not, ◌&&◌, ◌||◌, Result, ok, raise_if, ◌>>◌, Eq, ◌==◌, holds,
  string_eq, ltb, ℤ, String_discrete, ℕ_discrete, if◌then◌else◌, is_ok, arith,
}

pub data DispatchCertainty : Type 0 where
  proven_not_sent possibly_sent proven_sent : DispatchCertainty

unfoldable pub DispatchCertainty-discrete : Discrete DispatchCertainty
DispatchCertainty-discrete = hlevel

instance abbrev pub dispatch_certainty_eq : Eq DispatchCertainty
dispatch_certainty_eq = record { beq = λ a b. holds (DispatchCertainty-discrete a b) }

pub data FailurePhase : Type 0 where
  connect send read cancellation authentication_dependency capacity version_negotiation
        reconciliation :
      FailurePhase

pub data FailureKind : Type 0 where
  connect_timeout transport_unavailable send_failure read_timeout connection_lost
        dispatch_owner_lost caller_cancelled jwks_refresh_failed capacity_rejected
        unverified_remote_failure circuit_open unsupported_version authoritative_not_executed :
      FailureKind

pub data LifecycleOutcome : Type 0 where
  pre_dispatch_aborted rejected_before_execution pending_reconciliation : LifecycleOutcome

pub data ExecutionCertainty : Type 0 where
  proven_not_executed possibly_executed proven_executed : ExecutionCertainty

unfoldable pub ExecutionCertainty-discrete : Discrete ExecutionCertainty
ExecutionCertainty-discrete = hlevel

instance abbrev pub execution_certainty_eq : Eq ExecutionCertainty
execution_certainty_eq = record { beq = λ a b. holds (ExecutionCertainty-discrete a b) }

-- `str | int | None`.
pub data RequestId : Type 0 where
  absent : RequestId
  text : String → RequestId
  number : ℤ → RequestId

unfoldable pub RequestId-discrete : Discrete RequestId
unfolding String_discrete ℕ_discrete
RequestId-discrete = hlevel (String_discrete, ℕ_discrete)

instance abbrev pub request_id_eq : Eq RequestId
request_id_eq = record { beq = λ a b. holds (RequestId-discrete a b) }

pub record FailureEvidence : Type 0 where
  pub operation_id : String
  pub idempotency_key : String
  pub protocol_request_id : RequestId
  pub attempt_number : ℕ
  pub phase : FailurePhase
  pub kind : FailureKind
  pub dispatch_certainty : DispatchCertainty
  pub execution_certainty : ExecutionCertainty
  pub evidence_source : String

-- `FailureEvidence.__post_init__`.
unfoldable pub check_evidence : FailureEvidence → Result FailureEvidence
check_evidence e = do
  raise_if (e.operation_id == "") "operation_id must not be empty"
  raise_if (e.idempotency_key == "") "idempotency_key must not be empty"
  raise_if (ltb e.attempt_number 1) "attempt_number must be positive"
  raise_if (e.evidence_source == "") "evidence_source must not be empty"
  raise_if
      (e.dispatch_certainty == proven_not_sent
        && not (e.execution_certainty == proven_not_executed))
      "not-sent evidence must also be not-executed"
  ok e

pub record CancellationObservation : Type 0 where
  pub operation_id : String
  pub idempotency_key : String
  pub protocol_request_id : RequestId
  pub attempt_number : ℕ
  pub dispatch_certainty : DispatchCertainty
  pub remote_task_cancelled : Bool
  pub evidence_source : String

unfoldable pub cancellation_failure_evidence : CancellationObservation → Result FailureEvidence
cancellation_failure_evidence o = check_evidence (record {
  operation_id = o.operation_id;
  idempotency_key = o.idempotency_key;
  protocol_request_id = o.protocol_request_id;
  attempt_number = o.attempt_number;
  phase = cancellation;
  kind = caller_cancelled;
  dispatch_certainty = o.dispatch_certainty;
  execution_certainty =
      if o.dispatch_certainty == proven_not_sent then proven_not_executed else possibly_executed;
  evidence_source = o.evidence_source;
})

unfoldable pub classify_lifecycle_outcome : FailureEvidence → LifecycleOutcome
classify_lifecycle_outcome e =
    if e.execution_certainty == proven_not_executed
    then if e.dispatch_certainty == proven_not_sent
      then pre_dispatch_aborted
      else rejected_before_execution
    else pending_reconciliation
