-- ===== src/Reconciliation/Observe.antt =====
-- `ReconciliationScheduler` of projects/ai-agent/src/mcp_reconciliation.py. The authority behind
-- `AuthoritativeStatusQueryPort` is a parameter.
use ai_backend_engineer_hand.Prelude.{
  String, false, not, ◌||◌, Option, none, some, Result, ok, raised, ◌==◌, string_eq, if◌then◌else◌,
}
use ai_backend_engineer_hand.RemoteLifecycle.{
  FailureEvidence, proven_not_executed, execution_certainty_eq,
}
use ai_backend_engineer_hand.Reconciliation.Types.{
  AuthoritativeOperationStatus, succeeded, failed, not_executed, ApplicationOperationBinding,
  same_binding, AuthoritativeResultEvidence, ReconciliationDecisionKind, resolved_succeeded,
  resolved_failed, resolved_not_executed, still_pending, evidence_conflict, not_required,
  ReconciliationDecision,
}

-- A decision, which is a proposal only.
abbrev pub proposal :
    ReconciliationDecisionKind
    → ApplicationOperationBinding
    → Option String
    → Option String
    → ReconciliationDecision
proposal kind binding source object = record {
  kind = kind;
  binding = binding;
  evidence_source = source;
  external_object_id = object;
  durable_transition = false;
  original_tool_calls = 0;
}

-- The kind that an observed status calls for.
unfoldable pub kind_of : AuthoritativeOperationStatus → ReconciliationDecisionKind
kind_of succeeded = resolved_succeeded
kind_of failed = resolved_failed
kind_of not_executed = resolved_not_executed
kind_of _ = still_pending

-- What follows an observation.
unfoldable pub observed_decision :
    AuthoritativeResultEvidence → ApplicationOperationBinding → ReconciliationDecision
observed_decision o b =
    if not (same_binding o.binding b)
    then proposal evidence_conflict b (some o.evidence_source) none
    else proposal (kind_of o.status) b (some o.evidence_source) o.external_object_id

module _ {W : Type 0}
    (query : ApplicationOperationBinding → W → Result AuthoritativeResultEvidence × W) where
  unfoldable pub reconcile_once :
      FailureEvidence → ApplicationOperationBinding → W → Result ReconciliationDecision × W
  reconcile_once f b w =
      if not (f.operation_id == b.operation_id) || not (f.idempotency_key == b.idempotency_key)
      then (ok (proposal evidence_conflict b (some f.evidence_source) none), w)
      else if f.execution_certainty == proven_not_executed
      then (ok (proposal not_required b none none), w)
      else let (answer, w') = query b w in
        (elim answer [ ok o ↦ ok (observed_decision o b) | raised e ↦ raised e ], w')
