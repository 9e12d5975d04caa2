-- ===== src/Reconciliation/Observations.antt =====
-- What one observation proposes, and what a committed fact is evidence of.
use ai_backend_engineer_hand.Prelude.{
  ℕ, ◌≡◌, ◌≢◌, ◌↔◌, inl, inr, true, Bool, string_eq, Result, ok, Result-cases, arith,
}
use ai_backend_engineer_hand.RemoteLifecycle.{FailureEvidence, check_evidence, proven_not_executed}
use ai_backend_engineer_hand.RetryPolicy.Policy.{is_retryable}
use ai_backend_engineer_hand.Reconciliation.Types.{
  not_executed, ApplicationOperationBinding, AuthoritativeResultEvidence, resolved_not_executed,
  is_resolved, ReconciliationDecision,
}
use ai_backend_engineer_hand.Reconciliation.Observe.{kind_of, observed_decision, reconcile_once}
use ai_backend_engineer_hand.Reconciliation.Store.{
  ReconciliationStore, commit_resolution, authoritative_not_executed_evidence, resolved_record,
  business_outcome_of,
}
use ai_backend_engineer_hand.Reconciliation.Commits.{
  Agrees, same_binding_iff, commit_resolution-cases,
}

module _ {W : Type 0}
    (query : ApplicationOperationBinding → W → Result AuthoritativeResultEvidence × W) where
  -- An observation that returns proposes that the operation was not executed exactly if the failure
  -- is that of the binding, is not already proven not executed, and the authority answers for that
  -- very binding that it was not executed; that the authority has not found it is not enough.
  reconcile_once-not_executed_iff :
      (f : FailureEvidence) (b : ApplicationOperationBinding) (w : W) (d : ReconciliationDecision)
      → (reconcile_once query f b w).0 ≡ ok d
      → (d.kind ≡ resolved_not_executed) ↔ (
          (f.operation_id ≡ b.operation_id)
          × (f.idempotency_key ≡ b.idempotency_key)
          × (f.execution_certainty ≢ proven_not_executed)
          × ((o : AuthoritativeResultEvidence) × ((query b w).0 ≡ ok o)
              × Agrees o.binding b
              × (o.status ≡ not_executed)))
  unfolding reconcile_once observed_decision kind_of
  reconcile_once-not_executed_iff f b w d h = elim (Result-cases (query b w).0) [
    | inl (o, answered) ↦ ground (arith, same_binding_iff o.binding b)
    | inr (e, failed) ↦ ground arith
  ]

-- Evidence that is made from a commit comes from a proposal that the operation was not executed; it
-- is the original operation, key and attempt, proven not executed, of a kind that is retried, and
-- passes its checks.
not_executed-is_retryable :
    (d : ReconciliationDecision) (expected : ℕ) (authorized : Bool) (seen s : ReconciliationStore)
    (original e : FailureEvidence)
    → authoritative_not_executed_evidence
        (commit_resolution d expected authorized seen s).0
        original
      ≡ ok e
    → (d.kind ≡ resolved_not_executed)
      × (e.operation_id ≡ original.operation_id)
      × (e.idempotency_key ≡ original.idempotency_key)
      × (e.attempt_number ≡ original.attempt_number)
      × (e.execution_certainty ≡ proven_not_executed)
      × (is_retryable e.kind ≡ true)
      × (check_evidence e ≡ ok e)
unfolding authoritative_not_executed_evidence resolved_record business_outcome_of is_resolved
    is_retryable check_evidence
not_executed-is_retryable d expected authorized seen s original e h =
    elim (commit_resolution-cases d expected authorized seen s) [
      | inl (lost, _) ↦ absurd (ground arith)
      | inr (won, c) ↦
          let (source, r, _, _, awaits, after, _) = c.written in
          ground (arith, c.resolved, after, awaits.binding)
    ]
