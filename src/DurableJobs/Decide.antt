-- ===== src/DurableJobs/Decide.antt =====
-- `decide_durable_recovery` of projects/ai-agent/src/durable_agent_jobs.py, a ladder of tests cut in
-- three: stale requests, what holds for every current job, what holds for a live one.
use ai_backend_engineer_hand.Prelude.{
  String, Bool, not, ◌||◌, ◌&&◌, List, [], ◌∷◌, ◌==◌, string_eq, nat_eq, leb, is_some,
  if◌then◌else◌,
}
use ai_backend_engineer_hand.AgentStateMachine.Types.{
  AgentState, running, waiting, pending_reconciliation, is_terminal, agent_state_eq,
}
use ai_backend_engineer_hand.DurableJobs.Types.{
  definitely_not_dispatched, outcome_unknown, external_certainty_eq, DurableRecoveryDecision,
  resume, retry, replan, reconcile, repair, settle, compensate, escalate, blocked, terminal_noop,
  reject_stale, ReservationAction, no_change, keep_held, release, settle_verified, OutboxAction,
  no_outbox, create_recovery_intent,
}
use ai_backend_engineer_hand.DurableJobs.Records.{
  RecoveryOperation, automatic_recovery_available, DurableAgentJobRecord, RecoveryRequest,
  DurableRecoveryCandidate,
}

-- `_candidate`.
unfoldable pub candidate :
    RecoveryRequest
    → DurableRecoveryDecision
    → String
    → String
    → AgentState
    → ReservationAction
    → OutboxAction
    → List String
    → DurableRecoveryCandidate
candidate q decision status reason next_state reservation outbox evidence = record {
  phase = "DURABLE_RECOVERY";
  status = status;
  recovery_id = q.recovery_id;
  tenant_id = q.tenant_id;
  job_id = q.job_id;
  step_id = q.step_id;
  attempt_id = q.attempt_id;
  checkpoint_id = q.checkpoint_id;
  expected_state = q.expected_state;
  expected_state_version = q.expected_state_version;
  expected_fence_token = q.expected_fence_token;
  decision = decision;
  recovery_reason = reason;
  next_state = next_state;
  reservation_action = reservation;
  outbox_action = outbox;
  evidence = evidence;
  verified_usage_units = q.verified_usage_units;
}

-- `record.state if record.state in TERMINAL_STATES else PENDING_RECONCILIATION`.
unfoldable pub keep_or_pending : AgentState → AgentState
keep_or_pending s = if is_terminal s then s else pending_reconciliation

-- The tests that only a job which is not terminal reaches.
unfoldable pub decide_live : DurableAgentJobRecord → RecoveryRequest → DurableRecoveryCandidate
decide_live r q =
    if not q.original_binding_currently_allowed
    then if not q.current_authorization
      then candidate q blocked "CURRENT_AUTHORIZATION_REVOKED"
          "old binding is preserved and new planning is blocked" r.state release no_outbox
          ("old_binding_not_rewritten" ∷ [])
      else candidate q replan "CURRENT_BINDING_REPLAN_REQUIRED"
          "old binding is no longer valid for new execution" waiting release create_recovery_intent
          ("old_binding_not_rewritten" ∷ [])
    else if q.external_certainty == definitely_not_dispatched
    then if not q.current_authorization
      then candidate q blocked "CURRENT_AUTHORIZATION_REVOKED"
          "Retry cannot bypass current authorization" r.state release no_outbox []
      else candidate q retry "SAFE_NEW_ATTEMPT_CANDIDATE"
          "original execution is proven not dispatched" running release create_recovery_intent
          ("new_attempt_identity_required" ∷ [])
    else candidate q resume "SAFE_RESUME_CANDIDATE"
        "continue the same identity from committed facts" r.state no_change no_outbox
        ("immutable_execution_bindings_preserved" ∷ [])

-- The tests on a request that is current.
unfoldable pub decide_current :
    DurableAgentJobRecord → RecoveryOperation → RecoveryRequest → DurableRecoveryCandidate
decide_current r o q =
    if not (automatic_recovery_available o) || leb o.deadline_epoch_ms q.now_epoch_ms
    then candidate q escalate "BOUNDED_RECOVERY_EXHAUSTED"
        "automatic recovery limit or deadline reached" (keep_or_pending r.state) keep_held no_outbox
        ("manual_or_operator_owned_follow_up_required" ∷ [])
    else if q.external_certainty == outcome_unknown
    then candidate q reconcile "EXTERNAL_OUTCOME_UNKNOWN"
        "query and classify the original operation identity" (keep_or_pending r.state) keep_held
        create_recovery_intent
        ("original_attempt_identity_preserved" ∷ "unknown_usage_is_not_zero" ∷ [])
    else if q.internal_repair_required
    then candidate q repair "INTERNAL_DURABLE_REFERENCE_REPAIR"
        "repair internal truth without changing history" r.state no_change no_outbox
        ("append_only_repair_audit_required" ∷ [])
    else if q.verified_effect_unwanted
    then if not q.current_authorization
      then candidate q blocked "COMPENSATION_NOT_AUTHORIZED"
          "new external effect requires current authorization" r.state no_change no_outbox
          ("verified_effect_remains_historical_fact" ∷ [])
      else candidate q compensate "COMPENSATION_CANDIDATE"
          "create a new operation for the unwanted verified effect" r.state no_change
          create_recovery_intent ("source_attempt_not_rewritten" ∷ [])
    else if is_some q.verified_usage_units
    then candidate q settle "VERIFIED_USAGE_SETTLEMENT"
        "settle actual usage and release unused capacity" r.state settle_verified no_outbox
        ("verified_usage_evidence" ∷ [])
    else if is_terminal r.state
    then candidate q terminal_noop "ALREADY_TERMINAL" "terminal Job cannot be reopened by recovery"
        r.state no_change no_outbox ("terminal_history_preserved" ∷ [])
    else decide_live r q

-- The request names the current tenant, job, step, attempt and checkpoint.
unfoldable pub names_current : DurableAgentJobRecord → RecoveryRequest → Bool
names_current r q =
    q.tenant_id == r.tenant_id
    && q.job_id == r.job_id
    && q.step_id == r.current_step_id
    && q.attempt_id == r.current_attempt_id
    && q.checkpoint_id == r.current_checkpoint.checkpoint_id

unfoldable pub decide_durable_recovery :
    DurableAgentJobRecord → RecoveryOperation → RecoveryRequest → DurableRecoveryCandidate
decide_durable_recovery r o q =
    if not (names_current r q)
    then candidate q reject_stale "CHECKPOINT_IDENTITY_MISMATCH"
        "recovery identity does not match durable current identity" r.state no_change no_outbox
        ("reload_authoritative_record" ∷ [])
    else if not (q.expected_state == r.state)
        || not (q.expected_state_version == r.state_version)
        || not (q.expected_fence_token == r.fence_token)
    then candidate q reject_stale "STALE_RECOVERY_SNAPSHOT" "state, version, or fence advanced"
        r.state no_change no_outbox ("conditional_apply_would_affect_zero_rows" ∷ [])
    else decide_current r o q
