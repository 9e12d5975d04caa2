-- ===== src/HumanControl/Guards.antt =====
-- The candidate that `decide_human_control` of projects/ai-agent/src/human_control.py builds, and the
-- tests that every command passes first.
use ai_backend_engineer_hand.Prelude.{
  ℕ, String, Bool, false, not, ◌||◌, ◌&&◌, Option, none, some, List, [], ◌∷◌, ◌++◌, ◌==◌, string_eq,
  nat_eq, option_eq, leb, is_in, all_given, prefixed, if◌then◌else◌,
}
use ai_backend_engineer_hand.AgentStateMachine.Types.{AgentState, agent_state_eq, is_terminal}
use ai_backend_engineer_hand.DurableJobs.Types.{
  outcome_unknown, external_certainty_eq, no_change, keep_held,
}
use ai_backend_engineer_hand.DurableJobs.Records.{DurableRecoveryCandidate}
use ai_backend_engineer_hand.HumanControl.Types.{
  ApprovalStatus, approved, rejected, conflicting, approval_status_eq, Principal, ActionBinding,
  ApprovalDecision, CurrentFacts, Command, Snapshot, ControlStatus, invalid_facts,
  control_not_authorized, execution_binding_mismatch, result_identity_mismatch,
  stale_result_evidence, result_evidence, invalid_decision, approver_not_authorized,
  duplicate_decision, invalid_escalation_deadline, escalated, no_event, escalation_alert,
  HumanControlCandidate, Fingerprints,
}
use ai_backend_engineer_hand.HumanControl.Equality.{principal_eq, approval_decision_eq}

-- `_permitted`.
unfoldable pub permitted : Principal → String → String → Bool
permitted p tenant permission =
    p.authenticated && p.tenant_id == tenant && is_in permission p.permissions

-- `value` of an optional text, as a condition.
abbrev pub is_present : Option String → Bool
is_present none = false
is_present (some text) = not (text == "")

-- A result if there is one, and the rest otherwise.
abbrev pub or_else : Option HumanControlCandidate → HumanControlCandidate → HumanControlCandidate
or_else none rest = rest
or_else (some answer) rest = answer

-- `asdict(action).values()` are texts that are not empty; the risk always has one.
unfoldable pub is_complete : ActionBinding → Bool
is_complete a = all_given (
    a.tenant_id ∷ a.job_id ∷ a.step_id ∷ a.attempt_id ∷ a.operation_id ∷ a.action_type ∷ a.tool_name
    ∷ a.tool_version ∷ a.arguments_fingerprint ∷ a.artifact_id ∷ a.artifact_version ∷ a.requester_id
    ∷ a.policy_id ∷ a.policy_version ∷ a.execution_binding_fingerprint ∷ [])

module _ ⦃prints : Fingerprints⦄ (s : Snapshot) (command : Command) (facts : CurrentFacts)
    (now : ℕ) where
  -- `authz` and `sod`.
  unfoldable pub authorized : Bool
  authorized =
      permitted facts.executor s.action.tenant_id s.action.action_type
      && facts.executor.actor_id == s.action.requester_id

  unfoldable pub is_separate : Bool
  is_separate =
      not s.request.separation_required || not (facts.approver.actor_id == s.action.requester_id)

  -- `result(status)` with its defaults.
  unfoldable pub control_result : ControlStatus → HumanControlCandidate
  control_result status = record {
    phase = "HUMAN_CONTROL";
    snapshot_fingerprint = prints.of_snapshot s;
    command = command;
    status = status;
    next_state = s.job.state;
    approval_status = s.approval;
    execution_allowed = false;
    reservation_action = no_change;
    outbox_action = no_event;
    follow_up = "NONE";
    authorization_result = authorized;
    separation_result = is_separate;
    evidence = [];
    escalation = none;
    recovery_candidate = none;
  }

  -- `result(status, evidence=...)`.
  abbrev pub with_evidence : ControlStatus → List String → HumanControlCandidate
  with_evidence status evidence = record (control_result status) { evidence = evidence }

  -- `escalate(reason, state=..., approval=..., recovery=..., evidence=...)`.
  unfoldable pub escalate_control :
      String
      → AgentState
      → ApprovalStatus
      → Option DurableRecoveryCandidate
      → List String
      → HumanControlCandidate
  escalate_control reason state approval recovery evidence =
      let owner = if facts.owner_available then facts.owner else facts.fallback_owner in
      let routable = permitted owner s.action.tenant_id "operate" in
      let all_evidence =
        evidence ++ (if facts.owner_available then [] else "OWNER_UNAVAILABLE" ∷ []) in
      if leb facts.escalation_deadline now
      then control_result invalid_escalation_deadline
      else record (control_result (escalated reason)) {
        next_state = state;
        approval_status = approval;
        reservation_action = if facts.certainty == outcome_unknown then keep_held else no_change;
        outbox_action = escalation_alert;
        follow_up = "OPERATOR_REVIEW";
        evidence = all_evidence;
        escalation = some (record {
          escalation_id = prefixed "escalation:" command.command_id;
          tenant_id = s.action.tenant_id;
          attempt_id = s.action.attempt_id;
          operation_id = s.action.operation_id;
          owner_id = if routable then some owner.actor_id else none;
          reason = reason;
          priority = "HIGH";
          deadline = facts.escalation_deadline;
          alert_status = if routable then "PENDING" else "UNROUTABLE";
          evidence = all_evidence;
        });
        recovery_candidate = recovery;
      }

  -- The tests that every command passes first.
  unfoldable pub refused_first : Option HumanControlCandidate
  refused_first =
      if command.command_id == ""
        || s.request.request_id == ""
        || not (leb s.request.requested_at s.request.respond_by)
        || not (leb s.request.respond_by s.request.expires_at)
        || not (is_complete s.action)
      then some (with_evidence invalid_facts ("fail_closed" ∷ []))
      else if not (permitted command.actor s.action.tenant_id "control")
      then some (control_result control_not_authorized)
      else if not (s.job.tenant_id == s.action.tenant_id)
          || not (s.job.job_id == s.action.job_id)
          || not (s.job.current_step_id == s.action.step_id)
          || not (s.job.current_attempt_id == s.action.attempt_id)
          || not (
              s.action.execution_binding_fingerprint
              == prints.of_bindings s.job.current_checkpoint.bindings)
      then some (control_result execution_binding_mismatch)
      else none

  -- LATE_RESULT.
  unfoldable pub decide_late_result : HumanControlCandidate
  decide_late_result =
      let stale =
        not (command.source_fence == some s.job.fence_token)
        || not (s.job.lease_owner == some command.actor.actor_id)
        || is_terminal s.job.state in
      elim command.evidence_id [
        | none ↦ control_result result_identity_mismatch
        | some evidence_id ↦
            if evidence_id == ""
              || not (command.source_attempt_id == some s.action.attempt_id)
              || not (command.source_operation_id == some s.action.operation_id)
            then control_result result_identity_mismatch
            else record (with_evidence (if stale then stale_result_evidence else result_evidence)
                ("original_identity_evidence" ∷ evidence_id ∷ [])) {
                  follow_up = "VERIFY_ORIGINAL_RESULT";
                }
      ]

  -- `next((d for d in decisions if d.decision_id == id), None)`.
  unfoldable pub find_decision : String → List ApprovalDecision → Option ApprovalDecision
  find_decision id [] = none
  find_decision id (d ∷ ds) = if d.decision_id == id then some d else find_decision id ds

  -- A decision of this identity that is there already.
  unfoldable pub refused_again : ApprovalDecision → Option HumanControlCandidate
  refused_again d = elim (find_decision d.decision_id s.decisions) [
    | none ↦ none
    | some previous ↦
        if previous == d
        then some (with_evidence duplicate_decision ("duplicate_no_business_effect" ∷ []))
        else some (
            escalate_control "DECISION_IDENTITY_CONFLICT" s.job.state conflicting none
              (prints.of_decision previous ∷ prints.of_decision d ∷ []))
  ]

  -- DECISION: who decides, and whether it is decided already.
  unfoldable pub refused_decision : Option HumanControlCandidate
  refused_decision = elim command.decision [
    | none ↦ some (control_result invalid_decision)
    | some d ↦
        if d.decision_id == "" || not (d.choice == approved || d.choice == rejected)
        then some (control_result invalid_decision)
        else if not (permitted command.actor s.action.tenant_id "approve")
            || not (command.actor.actor_id == d.actor_id)
            || not (command.actor.tenant_id == d.tenant_id)
            || not (command.actor == facts.approver)
        then some (control_result approver_not_authorized)
        else refused_again d
  ]

  -- The command was made for another state, version or fence.
  unfoldable pub is_stale : Bool
  is_stale =
      not (command.expected_state == s.job.state)
      || not (command.expected_state_version == s.job.state_version)
      || not (command.expected_fence == s.job.fence_token)
