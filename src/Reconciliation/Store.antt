-- ===== src/Reconciliation/Store.antt =====
-- `InMemoryReconciliationStore`, `ReconciliationCommitter` and
-- `authoritative_not_executed_evidence` of projects/ai-agent/src/mcp_reconciliation.py.
use ai_backend_engineer_hand.Prelude.{
  ℕ, String, ◌+◌, Bool, true, false, not, ◌||◌, Option, none, some, Result, ok, raised, value_error,
  raise_if, ◌>>◌, Eq, ◌==◌, holds, string_eq, nat_eq, Dict, lookup, insert, contains, if◌then◌else◌,
}
use ai_backend_engineer_hand.RemoteLifecycle.{
  FailureEvidence, check_evidence, reconciliation, authoritative_not_executed, proven_not_executed,
}
use ai_backend_engineer_hand.Reconciliation.Types.{
  ApplicationOperationBinding, same_binding, ReconciliationDecisionKind, resolved_succeeded,
  resolved_failed, is_resolved, ReconciliationDecision,
}

pub data ReconciledBusinessOutcome : Type 0 where
  succeeded failed not_executed : ReconciledBusinessOutcome

unfoldable pub ReconciledBusinessOutcome-discrete : Discrete ReconciledBusinessOutcome
ReconciledBusinessOutcome-discrete = hlevel

instance abbrev pub business_outcome_eq : Eq ReconciledBusinessOutcome
business_outcome_eq = record { beq = λ a b. holds (ReconciledBusinessOutcome-discrete a b) }

pub data ComplianceOutcome : Type 0 where
  compliant authorization_violation not_applicable : ComplianceOutcome

pub data ReconciliationRecordState : Type 0 where
  pending completed : ReconciliationRecordState

unfoldable pub ReconciliationRecordState-discrete : Discrete ReconciliationRecordState
ReconciliationRecordState-discrete = hlevel

instance abbrev pub reconciliation_state_eq : Eq ReconciliationRecordState
reconciliation_state_eq = record { beq = λ a b. holds (ReconciliationRecordState-discrete a b) }

pub record ReconciliationRecord : Type 0 where
  pub binding : ApplicationOperationBinding
  pub state : ReconciliationRecordState
  pub version : ℕ
  pub business_outcome : Option ReconciledBusinessOutcome
  pub compliance_outcome : Option ComplianceOutcome
  pub external_object_id : Option String
  pub evidence_source : Option String

-- The store: `_records`.
abbrev pub ReconciliationStore : Type 0
ReconciliationStore = Dict ReconciliationRecord

-- `add_pending`.
unfoldable pub pending_record : ApplicationOperationBinding → ReconciliationRecord
pending_record b = record {
  binding = b;
  state = pending;
  version = 1;
  business_outcome = none;
  compliance_outcome = none;
  external_object_id = none;
  evidence_source = none;
}

unfoldable pub add_pending :
    ApplicationOperationBinding → ReconciliationStore → Result ReconciliationStore
add_pending b s = do
  raise_if (contains b.operation_id s) "operation is already registered"
  ok (insert b.operation_id (pending_record b) s)

-- What a completion writes.
pub record Resolution : Type 0 where
  pub business_outcome : ReconciledBusinessOutcome
  pub compliance_outcome : ComplianceOutcome
  pub external_object_id : Option String
  pub evidence_source : String

unfoldable pub resolved_record : Resolution → ReconciliationRecord → ReconciliationRecord
resolved_record v r = record r {
  state = completed;
  version = r.version + 1;
  business_outcome = some v.business_outcome;
  compliance_outcome = some v.compliance_outcome;
  external_object_id = v.external_object_id;
  evidence_source = some v.evidence_source;
}

set_found :
    Option ReconciliationRecord
    → ApplicationOperationBinding
    → ℕ
    → Resolution
    → ReconciliationStore
    → Option ReconciliationRecord × ReconciliationStore
set_found none b expected v s = (none, s)
set_found (some r) b expected v s =
    if not (same_binding r.binding b) || not (r.state == pending) || not (r.version == expected)
    then (none, s)
    else (some (resolved_record v r), insert b.operation_id (resolved_record v r) s)

-- `compare_and_set_completed`.
unfoldable pub set_completed :
    ApplicationOperationBinding
    → ℕ
    → Resolution
    → ReconciliationStore
    → Option ReconciliationRecord × ReconciliationStore
unfolding set_found
set_completed b expected v s = set_found (lookup b.operation_id s) b expected v s

pub data ReconciliationCommitOutcome : Type 0 where
  committed proposal_not_resolved binding_conflict state_conflict version_conflict cas_conflict :
      ReconciliationCommitOutcome

unfoldable pub ReconciliationCommitOutcome-discrete : Discrete ReconciliationCommitOutcome
ReconciliationCommitOutcome-discrete = hlevel

instance abbrev pub commit_outcome_eq : Eq ReconciliationCommitOutcome
commit_outcome_eq = record { beq = λ a b. holds (ReconciliationCommitOutcome-discrete a b) }

pub record ReconciliationCommitResult : Type 0 where
  pub outcome : ReconciliationCommitOutcome
  pub record_after : Option ReconciliationRecord
  pub durable_transition : Bool

abbrev pub not_committed : ReconciliationCommitOutcome → ReconciliationCommitResult
not_committed outcome = record {
  outcome = outcome;
  record_after = none;
  durable_transition = false;
}

unfoldable pub business_outcome_of : ReconciliationDecisionKind → ReconciledBusinessOutcome
business_outcome_of resolved_succeeded = succeeded
business_outcome_of resolved_failed = failed
business_outcome_of _ = not_executed

unfoldable pub compliance_outcome_of : ReconciledBusinessOutcome → Bool → ComplianceOutcome
compliance_outcome_of not_executed authorized = not_applicable
compliance_outcome_of _ true = compliant
compliance_outcome_of _ false = authorization_violation

-- The tests of `commit` on the record that it reads: the first that fails, if any.
unfoldable pub commit_conflict :
    Option ReconciliationRecord
    → ApplicationOperationBinding
    → ℕ
    → Option ReconciliationCommitOutcome
commit_conflict none b expected = some binding_conflict
commit_conflict (some r) b expected =
    if not (same_binding r.binding b)
    then some binding_conflict
    else if not (r.state == pending)
    then some state_conflict
    else if not (r.version == expected)
    then some version_conflict
    else none

-- The result, from what the compare-and-set returned.
abbrev pub commit_result : Option ReconciliationRecord → ReconciliationCommitResult
commit_result none = not_committed cas_conflict
commit_result (some r) = record {
  outcome = committed;
  record_after = some r;
  durable_transition = true;
}

-- `commit`. The record is read, and later written under a lock of its own: `seen` is the store at the
-- read, `s` the store at the write, and other calls may come between.
commit_source :
    Option String
    → ReconciliationDecision
    → ℕ
    → Bool
    → ReconciliationStore
    → ReconciliationStore
    → ReconciliationCommitResult × ReconciliationStore
commit_source none d expected authorized seen s = (not_committed proposal_not_resolved, s)
commit_source (some source) d expected authorized seen s =
    if not (is_resolved d.kind)
    then (not_committed proposal_not_resolved, s)
    else elim (commit_conflict (lookup d.binding.operation_id seen) d.binding expected) [
      | some conflict ↦ (not_committed conflict, s)
      | none ↦
          let outcome = business_outcome_of d.kind in
          let (written, s') =
            set_completed d.binding expected
              (record {
                business_outcome = outcome;
                compliance_outcome = compliance_outcome_of outcome authorized;
                external_object_id = d.external_object_id;
                evidence_source = source;
              })
              s in
          (commit_result written, s')
    ]

unfoldable pub commit_resolution :
    ReconciliationDecision
    → ℕ
    → Bool
    → ReconciliationStore
    → ReconciliationStore
    → ReconciliationCommitResult × ReconciliationStore
unfolding commit_source
commit_resolution d expected authorized seen s =
    commit_source d.evidence_source d expected authorized seen s

-- The committed record and its source, as the evidence needs them.
evidence_of : Option String → ReconciliationRecord → FailureEvidence → Result FailureEvidence
evidence_of none r original = raised (value_error "committed NOT_EXECUTED fact is required")
evidence_of (some source) r original =
    if not (original.operation_id == r.binding.operation_id)
      || not (original.idempotency_key == r.binding.idempotency_key)
    then raised (value_error "original failure does not match reconciled binding")
    else check_evidence (record {
      operation_id = r.binding.operation_id;
      idempotency_key = r.binding.idempotency_key;
      protocol_request_id = original.protocol_request_id;
      attempt_number = original.attempt_number;
      phase = reconciliation;
      kind = authoritative_not_executed;
      dispatch_certainty = original.dispatch_certainty;
      execution_certainty = proven_not_executed;
      evidence_source = source;
    })

abbrev is_not_executed : Option ReconciledBusinessOutcome → Bool
is_not_executed (some not_executed) = true
is_not_executed _ = false

evidence_of_record : Option ReconciliationRecord → FailureEvidence → Result FailureEvidence
unfolding evidence_of
evidence_of_record none original = raised (value_error "committed NOT_EXECUTED fact is required")
evidence_of_record (some r) original =
    if not (is_not_executed r.business_outcome)
    then raised (value_error "committed NOT_EXECUTED fact is required")
    else evidence_of r.evidence_source r original

unfoldable pub authoritative_not_executed_evidence :
    ReconciliationCommitResult → FailureEvidence → Result FailureEvidence
unfolding evidence_of_record
authoritative_not_executed_evidence c original =
    if not (c.outcome == committed)
    then raised (value_error "committed NOT_EXECUTED fact is required")
    else evidence_of_record c.record_after original
