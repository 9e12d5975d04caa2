-- ===== src/HumanControl/Types.antt =====
-- The values of projects/ai-agent/src/human_control.py. Times, versions and fences are natural
-- numbers, and an enum has its members only, so that the tests for other values have no counterpart.
-- A status text is a constructor, with the texts that are put together from a prefix as one each.
use ai_backend_engineer_hand.Prelude.{
  ℕ, String, Bool, true, false, prefixed, Option, List, ℤ, Eq, holds,
}
use ai_backend_engineer_hand.AgentStateMachine.Types.{AgentState, InvocationGovernanceStatus}
use ai_backend_engineer_hand.DurableJobs.Types.{ExternalCertainty, ReservationAction}
use ai_backend_engineer_hand.DurableJobs.Records.{
  ExecutionBindings, DurableCheckpoint, DurableAgentJobRecord, RecoveryOperation,
  DurableRecoveryCandidate,
}

pub data ApprovalStatus : Type 0 where
  not_required pending approved rejected expired revoked superseded cancelled conflicting :
      ApprovalStatus

unfoldable pub ApprovalStatus-discrete : Discrete ApprovalStatus
ApprovalStatus-discrete = hlevel

instance abbrev pub approval_status_eq : Eq ApprovalStatus
approval_status_eq = record { beq = λ a b. holds (ApprovalStatus-discrete a b) }

pub data Risk : Type 0 where
  low high : Risk

pub data Operation : Type 0 where
  decision_made gate interrupt observe_cancel recover late_result invalidate : Operation

pub record Principal : Type 0 where
  pub tenant_id : String
  pub actor_id : String
  pub role : String
  pub authenticated : Bool
  pub permissions : List String

pub record ActionBinding : Type 0 where
  pub tenant_id : String
  pub job_id : String
  pub step_id : String
  pub attempt_id : String
  pub operation_id : String
  pub action_type : String
  pub tool_name : String
  pub tool_version : String
  pub arguments_fingerprint : String
  pub artifact_id : String
  pub artifact_version : String
  pub requester_id : String
  pub policy_id : String
  pub policy_version : String
  pub risk : Risk
  pub execution_binding_fingerprint : String

pub record ApprovalRequest : Type 0 where
  pub request_id : String
  pub binding : ActionBinding
  pub requested_at : ℕ
  pub respond_by : ℕ
  pub expires_at : ℕ
  pub eligible_roles : List String
  pub separation_required : Bool
  pub issued_state_version : ℕ
  pub issued_fence : ℕ
  pub supersedes : Option String

pub record ApprovalDecision : Type 0 where
  pub decision_id : String
  pub request_id : String
  pub binding_fingerprint : String
  pub actor_id : String
  pub tenant_id : String
  pub choice : ApprovalStatus
  pub decided_at : ℕ
  pub reason_code : String

pub record CurrentFacts : Type 0 where
  pub executor : Principal
  pub approver : Principal
  pub policy_available : Bool
  pub policy_id : String
  pub policy_version : String
  pub policy_quarantined : Bool
  pub approval_required : Bool
  pub governance : InvocationGovernanceStatus
  pub admission_allowed : Bool
  pub business_valid : Bool
  pub budget_allowed : Bool
  pub certainty : ExternalCertainty
  pub recovery : RecoveryOperation
  pub policy_wait_deadline : ℕ
  pub owner : Principal
  pub fallback_owner : Principal
  pub owner_available : Bool
  pub escalation_deadline : ℕ
  pub verified_usage : Option ℤ
  pub outcome_evidence_id : Option String

pub record Command : Type 0 where
  pub command_id : String
  pub operation : Operation
  pub actor : Principal
  pub expected_state : AgentState
  pub expected_state_version : ℕ
  pub expected_fence : ℕ
  pub decision : Option ApprovalDecision
  pub invalidate_to : Option ApprovalStatus
  pub evidence_id : Option String
  pub source_attempt_id : Option String
  pub source_operation_id : Option String
  pub source_fence : Option ℕ

pub record Escalation : Type 0 where
  pub escalation_id : String
  pub tenant_id : String
  pub attempt_id : String
  pub operation_id : String
  pub owner_id : Option String
  pub reason : String
  pub priority : String
  pub deadline : ℕ
  pub alert_status : String
  pub evidence : List String

pub record Snapshot : Type 0 where
  pub job : DurableAgentJobRecord
  pub action : ActionBinding
  pub request : ApprovalRequest
  pub approval : ApprovalStatus
  pub decisions : List ApprovalDecision
  pub decision_evidence : List ApprovalDecision
  pub interrupt_id : Option String
  pub cancellation_observed_by : List String
  pub dispatch_started : Bool
  pub claimed_events : List String
  pub escalations : List Escalation
  pub checkpoint_history : List DurableCheckpoint

-- `"APPROVAL_" + status` is `approval_is status`, `"ESCALATE_" + reason` is `escalated reason`, and
-- `"INTERRUPTED_PRE_DISPATCH"`, `"INTERRUPTED_POST_DISPATCH"` are `interrupted` with and without proof
-- that nothing was sent.
pub data ControlStatus : Type 0 where
  invalid_facts control_not_authorized execution_binding_mismatch result_identity_mismatch
        stale_result_evidence result_evidence invalid_decision approver_not_authorized
        duplicate_decision stale_candidate recovery_not_authorized usage_evidence_required
        invalid_verified_usage settlement_already_recorded no_external_operation_to_reconcile
        reconcile_original settle_usage recovery_no_new_business_execution no_cancellation_request
        cancellation_observed interrupt_not_authorized duplicate_interrupt invalid_lifecycle_change
        terminal_job interrupt_blocked approval_binding_mismatch policy_is_quarantined
        policy_unavailable policy_binding_mismatch risk_policy_conflict decision_binding_mismatch
        decision_time_invalid approver_policy_rejected decision_recorded authorization_revoked
        tool_governance_blocked business_validation_failed tool_admission_blocked budget_blocked
        already_dispatch_claimed external_operation_already_possible reservation_not_held
        approval_evidence_missing current_approver_invalid execution_candidate
        invalid_escalation_deadline :
      ControlStatus
  approval_is : ApprovalStatus → ControlStatus
  escalated : String → ControlStatus
  interrupted : Bool → ControlStatus

-- The text of an approval.
unfoldable pub approval_text : ApprovalStatus → String
approval_text not_required = "NOT_REQUIRED"
approval_text pending = "PENDING"
approval_text approved = "APPROVED"
approval_text rejected = "REJECTED"
approval_text expired = "EXPIRED"
approval_text revoked = "REVOKED"
approval_text superseded = "SUPERSEDED"
approval_text cancelled = "CANCELLED"
approval_text conflicting = "CONFLICT"

-- The text of a status.
unfoldable pub status_text : ControlStatus → String
status_text invalid_facts = "INVALID_FACTS"
status_text control_not_authorized = "CONTROL_NOT_AUTHORIZED"
status_text execution_binding_mismatch = "EXECUTION_BINDING_MISMATCH"
status_text result_identity_mismatch = "RESULT_IDENTITY_MISMATCH"
status_text stale_result_evidence = "STALE_RESULT_EVIDENCE"
status_text result_evidence = "RESULT_EVIDENCE"
status_text invalid_decision = "INVALID_DECISION"
status_text approver_not_authorized = "APPROVER_NOT_AUTHORIZED"
status_text duplicate_decision = "DUPLICATE_DECISION"
status_text stale_candidate = "STALE_CANDIDATE"
status_text recovery_not_authorized = "RECOVERY_NOT_AUTHORIZED"
status_text usage_evidence_required = "USAGE_EVIDENCE_REQUIRED"
status_text invalid_verified_usage = "INVALID_VERIFIED_USAGE"
status_text settlement_already_recorded = "SETTLEMENT_ALREADY_RECORDED"
status_text no_external_operation_to_reconcile = "NO_EXTERNAL_OPERATION_TO_RECONCILE"
status_text reconcile_original = "RECONCILE"
status_text settle_usage = "SETTLE"
status_text recovery_no_new_business_execution = "RECOVERY_NO_NEW_BUSINESS_EXECUTION"
status_text no_cancellation_request = "NO_CANCELLATION_REQUEST"
status_text cancellation_observed = "CANCELLATION_OBSERVED"
status_text interrupt_not_authorized = "INTERRUPT_NOT_AUTHORIZED"
status_text duplicate_interrupt = "DUPLICATE_INTERRUPT"
status_text invalid_lifecycle_change = "INVALID_LIFECYCLE_CHANGE"
status_text terminal_job = "TERMINAL_NOOP"
status_text interrupt_blocked = "INTERRUPT_BLOCKED"
status_text approval_binding_mismatch = "APPROVAL_BINDING_MISMATCH"
status_text policy_is_quarantined = "POLICY_QUARANTINED"
status_text policy_unavailable = "POLICY_UNAVAILABLE"
status_text policy_binding_mismatch = "POLICY_BINDING_MISMATCH"
status_text risk_policy_conflict = "RISK_POLICY_CONFLICT"
status_text decision_binding_mismatch = "DECISION_BINDING_MISMATCH"
status_text decision_time_invalid = "DECISION_TIME_INVALID"
status_text approver_policy_rejected = "APPROVER_POLICY_REJECTED"
status_text decision_recorded = "DECISION_RECORDED"
status_text authorization_revoked = "AUTHORIZATION_REVOKED"
status_text tool_governance_blocked = "TOOL_GOVERNANCE_BLOCKED"
status_text business_validation_failed = "BUSINESS_VALIDATION_FAILED"
status_text tool_admission_blocked = "TOOL_ADMISSION_BLOCKED"
status_text budget_blocked = "BUDGET_BLOCKED"
status_text already_dispatch_claimed = "ALREADY_DISPATCH_CLAIMED"
status_text external_operation_already_possible = "EXTERNAL_OPERATION_ALREADY_POSSIBLE"
status_text reservation_not_held = "RESERVATION_NOT_HELD"
status_text approval_evidence_missing = "APPROVAL_EVIDENCE_MISSING"
status_text current_approver_invalid = "CURRENT_APPROVER_INVALID"
status_text execution_candidate = "EXECUTION_CANDIDATE"
status_text invalid_escalation_deadline = "INVALID_ESCALATION_DEADLINE"
status_text (approval_is status) = prefixed "APPROVAL_" (approval_text status)
status_text (escalated reason) = prefixed "ESCALATE_" reason
status_text (interrupted true) = "INTERRUPTED_PRE_DISPATCH"
status_text (interrupted false) = "INTERRUPTED_POST_DISPATCH"

pub data ControlOutbox : Type 0 where
  no_event escalation_alert reconciliation_query approval_request publish : ControlOutbox

-- The texts of the events.
unfoldable pub event_type_of : ControlOutbox → String
event_type_of no_event = "NONE"
event_type_of escalation_alert = "ESCALATION_ALERT"
event_type_of reconciliation_query = "RECONCILIATION_QUERY"
event_type_of approval_request = "APPROVAL_REQUEST"
event_type_of publish = "PUBLISH"

pub record HumanControlCandidate : Type 0 where
  pub phase : String
  pub snapshot_fingerprint : String
  pub command : Command
  pub status : ControlStatus
  pub next_state : AgentState
  pub approval_status : ApprovalStatus
  pub execution_allowed : Bool
  pub reservation_action : ReservationAction
  pub outbox_action : ControlOutbox
  pub follow_up : String
  pub authorization_result : Bool
  pub separation_result : Bool
  pub evidence : List String
  pub escalation : Option Escalation
  pub recovery_candidate : Option DurableRecoveryCandidate

-- `fingerprint` of each kind of value that the code takes it of: SHA-256 of its canonical JSON text, of
-- which nothing is assumed.
pub record Fingerprints : Type 0 where
  pub of_action : ActionBinding → String
  pub of_decision : ApprovalDecision → String
  pub of_snapshot : Snapshot → String
  pub of_bindings : ExecutionBindings → String
  pub of_texts : List String → String
