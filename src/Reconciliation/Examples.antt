-- ===== src/Reconciliation/Examples.antt =====
-- An operation whose outcome is unknown, which the authority reports as not executed, and a schedule
-- with one query left.
use ai_backend_engineer_hand.Prelude.{
  ℕ, ◌≡◌, ◌≢◌, refl, true, false, inr, none, some, [], ◌∷◌, Result, ok, suc, String_discrete,
  ℕ_discrete, lookup, insert, arith, text_digest, milliseconds, pos, string_eq,
}
use ai_backend_engineer_hand.RemoteLifecycle.{
  FailureEvidence, check_evidence, number, read, read_timeout, reconciliation,
  authoritative_not_executed, possibly_sent, possibly_executed, proven_not_executed,
  DispatchCertainty-discrete, ExecutionCertainty-discrete,
}
use ai_backend_engineer_hand.Reconciliation.Types.{
  not_executed, ApplicationOperationBinding, same_binding, AuthoritativeResultEvidence,
  resolved_not_executed, evidence_conflict, is_resolved, ReconciliationDecision,
}
use ai_backend_engineer_hand.Reconciliation.Observe.{
  proposal, kind_of, observed_decision, reconcile_once,
}
use ai_backend_engineer_hand.Reconciliation.Store.{
  ReconciliationRecordState-discrete, ReconciliationCommitOutcome-discrete, ReconciliationStore,
  pending_record, resolved_record, set_completed, committed, business_outcome_of,
  compliance_outcome_of, commit_conflict, commit_resolution, authoritative_not_executed_evidence,
}
use ai_backend_engineer_hand.Reconciliation.Schedule.{
  ReconciliationOperationalAlert, ReconciliationScheduleState, check_schedule_state,
  BoundedReconciliationPolicy,
}
use ai_backend_engineer_hand.Reconciliation.Commits.{here, committed-final}
use ai_backend_engineer_hand.Reconciliation.Schedules.{IsReady}

abbrev binding : ApplicationOperationBinding
binding = record {
  operation_id = "operation";
  idempotency_key = "key";
  tenant_id = "tenant";
  resource_id = "resource";
}

abbrev failure : FailureEvidence
failure = record {
  operation_id = "operation";
  idempotency_key = "key";
  protocol_request_id = number (pos 1);
  attempt_number = 1;
  phase = read;
  kind = read_timeout;
  dispatch_certainty = possibly_sent;
  execution_certainty = possibly_executed;
  evidence_source = "client";
}

-- An authority that has seen nothing of the operation, for certain, and counts its queries.
abbrev query : ApplicationOperationBinding → ℕ → Result AuthoritativeResultEvidence × ℕ
query b queries = (
  ok (record {
    binding = b;
    status = not_executed;
    evidence_source = "authority";
    external_object_id = none;
  }),
  suc queries,
)

abbrev observed : ReconciliationDecision
observed = proposal resolved_not_executed binding (some "authority") none

decided : (reconcile_once query failure binding 0).0 ≡ ok observed
unfolding reconcile_once observed_decision kind_of same_binding String_discrete
    ExecutionCertainty-discrete
decided = refl

abbrev store : ReconciliationStore
unfolding pending_record
store = ("operation", pending_record binding) ∷ []

observed_committed : (commit_resolution observed 1 true store store).0.outcome ≡ committed
unfolding store pending_record commit_resolution commit_conflict set_completed resolved_record
    same_binding is_resolved lookup insert String_discrete ℕ_discrete
    ReconciliationRecordState-discrete
observed_committed = refl

committed-final_example :
    let t = (commit_resolution observed 1 true store store).1 in
    (lookup "operation" t ≡ (commit_resolution observed 1 true store store).0.record_after)
    × ((commit_resolution observed 2 true t t).0.outcome ≢ committed)
    × ((commit_resolution observed 2 true t t).1 ≡ t)
committed-final_example =
    committed-final observed observed 1 2 true true store store
      (commit_resolution observed 1 true store store).1 observed_committed here refl

abbrev retry_evidence : FailureEvidence
retry_evidence = record failure {
  phase = reconciliation;
  kind = authoritative_not_executed;
  execution_certainty = proven_not_executed;
  evidence_source = "authority";
}

evidence_returned :
    authoritative_not_executed_evidence (commit_resolution observed 1 true store store).0 failure
    ≡ ok retry_evidence
unfolding authoritative_not_executed_evidence store pending_record commit_resolution commit_conflict
    set_completed resolved_record business_outcome_of compliance_outcome_of same_binding is_resolved
    lookup insert check_evidence String_discrete ℕ_discrete ReconciliationRecordState-discrete
    ReconciliationCommitOutcome-discrete DispatchCertainty-discrete ExecutionCertainty-discrete
evidence_returned = refl

-- An alert port that counts its calls.
abbrev count : ReconciliationOperationalAlert → ℕ → Result (Unit {0}) × ℕ
count alert alerts = (ok tt, suc alerts)

abbrev schedule : ReconciliationScheduleState milliseconds
schedule = record {
  binding = binding;
  queries_used = 1;
  maximum_queries = 2;
  deadline = 60000;
  next_query_at = none;
  alert_emitted = false;
  pending_reconciliation = true;
}

schedule-IsReady : IsReady milliseconds count schedule
unfolding check_schedule_state
schedule-IsReady = record { checked = refl; left = inr (omega arith) }

abbrev policy : BoundedReconciliationPolicy milliseconds
policy = record {
  base_delay_seconds = 1000;
  maximum_delay_seconds = 30000;
  jitter_ratio = 200;
  minimum_query_window_seconds = 50;
}

abbrev conflicting : ReconciliationDecision
conflicting = proposal evidence_conflict binding (some "authority") none
