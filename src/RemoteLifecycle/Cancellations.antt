-- ===== src/RemoteLifecycle/Cancellations.antt =====
-- What a cancelled call is evidence of: the cancellation of the caller does not prove that the remote
-- side did nothing.
use ai_backend_engineer_hand.Prelude.{◌≡◌, ◌≢◌, ◌↔◌, ◌≤◌, ok, is_ok, true, string_eq, arith}
use ai_backend_engineer_hand.RemoteLifecycle.{
  proven_not_sent, proven_not_executed, pre_dispatch_aborted, pending_reconciliation,
  FailureEvidence, check_evidence, CancellationObservation, cancellation_failure_evidence,
  classify_lifecycle_outcome,
}

-- An observation with its identity complete.
pub record IsComplete (o : CancellationObservation) : Type 0 where
  pub operation_id : o.operation_id ≢ ""
  pub idempotency_key : o.idempotency_key ≢ ""
  pub attempt_number : 1 ≤ o.attempt_number
  pub evidence_source : o.evidence_source ≢ ""

-- A cancellation is turned into evidence exactly if its identity is complete: the evidence never
-- contradicts itself.
pub cancellation-is_ok :
    (o : CancellationObservation) → (is_ok (cancellation_failure_evidence o) ≡ true) ↔ IsComplete o
unfolding cancellation_failure_evidence check_evidence
cancellation-is_ok o = ground arith

-- The evidence of a cancelled call is classified as aborted before dispatch exactly if it is proven
-- that nothing was sent, and as pending reconciliation exactly if it is not.
cancellation-classified :
    (o : CancellationObservation) (e : FailureEvidence)
    → cancellation_failure_evidence o ≡ ok e
    → ((classify_lifecycle_outcome e ≡ pre_dispatch_aborted)
        ↔ (o.dispatch_certainty ≡ proven_not_sent))
      × ((classify_lifecycle_outcome e ≡ pending_reconciliation)
          ↔ (o.dispatch_certainty ≢ proven_not_sent))
unfolding cancellation_failure_evidence check_evidence classify_lifecycle_outcome
cancellation-classified o e h = ground arith

-- Evidence that passes its checks is classified by the certainty of execution: what may have been
-- executed is reconciled, and an aborted dispatch was never executed.
pub classify_iff :
    (e : FailureEvidence)
    → check_evidence e ≡ ok e
    → ((classify_lifecycle_outcome e ≡ pending_reconciliation)
        ↔ (e.execution_certainty ≢ proven_not_executed))
      × ((classify_lifecycle_outcome e ≡ pre_dispatch_aborted)
          ↔ (e.dispatch_certainty ≡ proven_not_sent))
unfolding check_evidence classify_lifecycle_outcome
classify_iff e h = ground arith
