-- ===== src/Reconciliation/Types.antt =====
-- The enums and records of projects/ai-agent/src/mcp_reconciliation.py that its parts share.
use ai_backend_engineer_hand.Prelude.{
  ℕ, String, Bool, true, false, not, ◌&&◌, Option, none, some, [], ◌∷◌, Result, ok, raise_if, ◌>>◌,
  Eq, ◌==◌, holds, string_eq, all_given,
}

pub data AuthoritativeOperationStatus : Type 0 where
  succeeded failed not_executed not_found unknown : AuthoritativeOperationStatus

unfoldable pub AuthoritativeOperationStatus-discrete : Discrete AuthoritativeOperationStatus
AuthoritativeOperationStatus-discrete = hlevel

instance abbrev pub operation_status_eq : Eq AuthoritativeOperationStatus
operation_status_eq = record { beq = λ a b. holds (AuthoritativeOperationStatus-discrete a b) }

pub record ApplicationOperationBinding : Type 0 where
  pub operation_id : String
  pub idempotency_key : String
  pub tenant_id : String
  pub resource_id : String

-- `ApplicationOperationBinding.__post_init__`.
unfoldable pub check_binding : ApplicationOperationBinding → Result ApplicationOperationBinding
check_binding b = do
  raise_if (not (all_given (b.operation_id ∷ b.idempotency_key ∷ b.tenant_id ∷ b.resource_id ∷ [])))
      "application operation binding must be complete"
  ok b

-- `==` of two bindings.
unfoldable pub same_binding : ApplicationOperationBinding → ApplicationOperationBinding → Bool
same_binding a b =
    a.operation_id == b.operation_id
    && a.idempotency_key == b.idempotency_key
    && a.tenant_id == b.tenant_id
    && a.resource_id == b.resource_id

pub record AuthoritativeResultEvidence : Type 0 where
  pub binding : ApplicationOperationBinding
  pub status : AuthoritativeOperationStatus
  pub evidence_source : String
  pub external_object_id : Option String

-- `not text`, of an optional text.
abbrev pub missing : Option String → Bool
missing none = true
missing (some t) = t == ""

-- `AuthoritativeResultEvidence.__post_init__`.
unfoldable pub check_result_evidence :
    AuthoritativeResultEvidence → Result AuthoritativeResultEvidence
check_result_evidence e = do
  raise_if (e.evidence_source == "") "evidence_source must not be empty"
  raise_if (e.status == succeeded && missing e.external_object_id)
      "successful evidence requires external_object_id"
  ok e

pub data ReconciliationDecisionKind : Type 0 where
  resolved_succeeded resolved_failed resolved_not_executed still_pending evidence_conflict
        not_required :
      ReconciliationDecisionKind

unfoldable pub ReconciliationDecisionKind-discrete : Discrete ReconciliationDecisionKind
ReconciliationDecisionKind-discrete = hlevel

instance abbrev pub reconciliation_kind_eq : Eq ReconciliationDecisionKind
reconciliation_kind_eq = record { beq = λ a b. holds (ReconciliationDecisionKind-discrete a b) }

-- `kind in {RESOLVED_SUCCEEDED, RESOLVED_FAILED, RESOLVED_NOT_EXECUTED}`.
unfoldable pub is_resolved : ReconciliationDecisionKind → Bool
is_resolved resolved_succeeded = true
is_resolved resolved_failed = true
is_resolved resolved_not_executed = true
is_resolved _ = false

pub record ReconciliationDecision : Type 0 where
  pub kind : ReconciliationDecisionKind
  pub binding : ApplicationOperationBinding
  pub evidence_source : Option String
  pub external_object_id : Option String
  pub durable_transition : Bool
  pub original_tool_calls : ℕ
