-- ===== src/HumanControl/Decide.antt =====
-- `decide_human_control` of projects/ai-agent/src/human_control.py, a ladder of tests cut by operation.
use ai_backend_engineer_hand.Prelude.{
  ℕ, String, Bool, true, false, not, ◌||◌, ◌&&◌, Option, none, some, List, [], ◌∷◌, ◌==◌, string_eq,
  nat_eq, option_eq, leb, is_in, if◌then◌else◌,
}
use ai_backend_engineer_hand.AgentStateMachine.Types.{
  AgentState, running, waiting, pending_reconciliation, agent_state_eq, is_terminal,
  allowed_to_day74_admission,
}
use ai_backend_engineer_hand.AgentStateMachine.Types as Agent
use ai_backend_engineer_hand.DurableJobs.Types.{
  definitely_not_dispatched, external_certainty_eq, held, keep_held, release,
}
use ai_backend_engineer_hand.DurableJobs.Records.{ReservationRecord}
use ai_backend_engineer_hand.HumanControl.Types.{
  approval_request, approval_is, interrupted, publish, HumanControlCandidate, ApprovalStatus,
  not_required, pending, approved, rejected, expired, revoked, superseded, cancelled, conflicting,
  approval_status_eq, low, high, decision_made, interrupt, observe_cancel, recover, late_result,
  invalidate, ApprovalDecision, CurrentFacts, Command, Snapshot, no_cancellation_request,
  cancellation_observed, interrupt_not_authorized, duplicate_interrupt, invalid_lifecycle_change,
  terminal_job, interrupt_blocked, approval_binding_mismatch, policy_is_quarantined,
  policy_unavailable, policy_binding_mismatch, risk_policy_conflict, decision_binding_mismatch,
  decision_time_invalid, approver_policy_rejected, decision_recorded, authorization_revoked,
  tool_governance_blocked, business_validation_failed, tool_admission_blocked, budget_blocked,
  already_dispatch_claimed, external_operation_already_possible, reservation_not_held,
  approval_evidence_missing, current_approver_invalid, execution_candidate, stale_candidate,
  Fingerprints,
}
use ai_backend_engineer_hand.HumanControl.Equality.{
  action_binding_eq, governance_status_eq, reservation_status_eq, operation_eq,
}
use ai_backend_engineer_hand.HumanControl.Recover.{decide_recover}
use ai_backend_engineer_hand.HumanControl.Guards.{
  permitted, is_present, or_else, authorized, is_separate, control_result, with_evidence,
  escalate_control, refused_first, decide_late_result, refused_decision, is_stale,
}

-- `any(r.attempt_id == attempt and r.status is HELD for r in reservations)`.
unfoldable pub holds_reservation : String → List ReservationRecord → Bool
holds_reservation attempt [] = false
holds_reservation attempt (r ∷ rs) =
    (r.attempt_id == attempt && r.status == held) || holds_reservation attempt rs

-- The approvals that end a request.
unfoldable pub is_closed : ApprovalStatus → Bool
is_closed rejected = true
is_closed expired = true
is_closed revoked = true
is_closed superseded = true
is_closed cancelled = true
is_closed conflicting = true
is_closed _ = false

module _ ⦃prints : Fingerprints⦄ (s : Snapshot) (command : Command) (facts : CurrentFacts)
    (now : ℕ) where
  -- INTERRUPT.
  unfoldable pub decide_interrupt : HumanControlCandidate
  decide_interrupt =
      let unused = not s.dispatch_started && facts.certainty == definitely_not_dispatched in
      if not (permitted command.actor s.action.tenant_id "interrupt")
      then control_result s command facts now interrupt_not_authorized
      else if is_present s.interrupt_id
      then control_result s command facts now duplicate_interrupt
      else record (with_evidence s command facts now (interrupted unused)
          ("interrupt_is_not_external_absence" ∷ [])) {
            next_state =
                if is_terminal s.job.state
                then s.job.state
                else if unused
                then Agent.cancelled
                else pending_reconciliation;
            reservation_action = if unused then release else keep_held;
            follow_up = if unused then "NONE" else "CANCELLATION_REQUEST_AND_RECONCILIATION";
          }

  -- INVALIDATE.
  unfoldable pub decide_invalidate : HumanControlCandidate
  decide_invalidate = elim command.invalidate_to [
    | none ↦ control_result s command facts now invalid_lifecycle_change
    | some to ↦
        if not (permitted command.actor s.action.tenant_id "operate")
          || not (to == revoked || to == superseded || to == cancelled)
        then control_result s command facts now invalid_lifecycle_change
        else record (with_evidence s command facts now (approval_is to)
            ("approval_history_preserved" ∷ [])) { approval_status = to }
  ]

  -- What stops a decision and an execution alike.
  unfoldable pub refused_now : Option HumanControlCandidate
  refused_now =
      if is_terminal s.job.state
      then some (with_evidence s command facts now terminal_job ("terminal_not_reopened" ∷ []))
      else if is_present s.interrupt_id
      then some (control_result s command facts now interrupt_blocked)
      else if is_closed s.approval
      then some (control_result s command facts now (approval_is s.approval))
      else if not (s.request.binding == s.action)
      then some (
          with_evidence s command facts now approval_binding_mismatch ("new_request_required" ∷ []))
      else if leb s.request.expires_at now && facts.approval_required
      then some
          (record (with_evidence s command facts now (approval_is expired)
            ("no_silent_renewal" ∷ [])) { approval_status = expired })
      else if facts.policy_quarantined
      then some
          (with_evidence s command facts now policy_is_quarantined ("old_binding_preserved" ∷ []))
      else if not facts.policy_available
      then if leb facts.policy_wait_deadline now
        then some (
            escalate_control s command facts now "APPROVAL_POLICY_UNAVAILABLE" waiting s.approval
              none ("POLICY_WAIT_DEADLINE_EXCEEDED" ∷ []))
        else some (record (control_result s command facts now policy_unavailable) {
          next_state = waiting;
        })
      else if not (facts.policy_id == s.action.policy_id)
          || not (facts.policy_version == s.action.policy_version)
      then some (control_result s command facts now policy_binding_mismatch)
      else elim s.action.risk [
        | low ↦ none
        | high ↦
            if not facts.approval_required
            then some (control_result s command facts now risk_policy_conflict)
            else none
      ]

  -- DECISION, of a decision that passed `refused_decision`.
  unfoldable pub decide_decision : ApprovalDecision → HumanControlCandidate
  decide_decision d =
      if not (d.request_id == s.request.request_id)
        || not (d.binding_fingerprint == prints.of_action s.action)
      then control_result s command facts now decision_binding_mismatch
      else if not (leb s.request.requested_at d.decided_at)
          || not (leb d.decided_at now)
          || leb s.request.expires_at d.decided_at
      then control_result s command facts now decision_time_invalid
      else if not (is_in command.actor.role s.request.eligible_roles)
          || not (is_separate s command facts now)
      then control_result s command facts now approver_policy_rejected
      else elim s.decisions [
        | _ ∷ _ ↦
            escalate_control s command facts now "CONFLICTING_HUMAN_DECISION" s.job.state
              conflicting none ("original_decision_preserved" ∷ [])
        | [] ↦
            record (with_evidence s command facts now decision_recorded
              ("human_decision_not_dispatch" ∷ [])) { approval_status = d.choice }
      ]

  -- The approval is one of the current approver for this action.
  unfoldable pub is_current_approval : ApprovalDecision → Bool
  is_current_approval d =
      d.choice == approved
      && d.binding_fingerprint == prints.of_action s.action
      && d.request_id == s.request.request_id
      && d.actor_id == facts.approver.actor_id
      && permitted facts.approver s.action.tenant_id "approve"
      && is_in facts.approver.role s.request.eligible_roles
      && is_separate s command facts now

  -- What stops an execution, approval aside.
  unfoldable pub refused_execution : Option HumanControlCandidate
  refused_execution =
      if not (authorized s command facts now)
      then some (record (control_result s command facts now authorization_revoked) {
        reservation_action =
            if not s.dispatch_started && facts.certainty == definitely_not_dispatched
            then release
            else keep_held;
      })
      else if not (facts.governance == allowed_to_day74_admission)
      then some (control_result s command facts now tool_governance_blocked)
      else if not facts.business_valid
      then some (control_result s command facts now business_validation_failed)
      else if not facts.admission_allowed
      then some (control_result s command facts now tool_admission_blocked)
      else if not facts.budget_allowed
      then some (control_result s command facts now budget_blocked)
      else if s.dispatch_started
      then some (control_result s command facts now already_dispatch_claimed)
      else if not (facts.certainty == definitely_not_dispatched)
      then some (control_result s command facts now external_operation_already_possible)
      else if not (holds_reservation s.action.attempt_id s.job.reservations)
      then some (control_result s command facts now reservation_not_held)
      else none

  -- What stops an execution for want of an approval.
  unfoldable pub refused_approval : Option HumanControlCandidate
  refused_approval =
      if not facts.approval_required
      then none
      else if not (s.approval == approved)
      then if leb s.request.respond_by now
        then some
            (escalate_control s command facts now "APPROVAL_OVERDUE" waiting s.approval none [])
        else some (record (control_result s command facts now (approval_is pending)) {
          next_state = waiting;
          outbox_action = approval_request;
        })
      else elim s.decisions [
        | [] ↦ some (control_result s command facts now approval_evidence_missing)
        | d ∷ _ ↦
            if is_current_approval d
            then none
            else some (control_result s command facts now current_approver_invalid)
      ]

  -- GATE, when nothing stops it.
  unfoldable pub execution_allowed_now : HumanControlCandidate
  execution_allowed_now =
      record (with_evidence s command facts now execution_candidate
        ("current_guards_passed_candidate_only" ∷ [])) {
          next_state = running;
          approval_status = if facts.approval_required then s.approval else not_required;
          execution_allowed = true;
          outbox_action = publish;
        }

  -- GATE.
  unfoldable pub decide_gate : HumanControlCandidate
  decide_gate = or_else refused_execution (or_else refused_approval execution_allowed_now)

  -- The operations that a current command may ask for.
  unfoldable pub decide_operation : HumanControlCandidate
  decide_operation = elim command.operation [
    | recover ↦ decide_recover s command facts now
    | observe_cancel ↦
        if is_present s.interrupt_id
        then with_evidence s command facts now cancellation_observed
            ("worker_observed_not_external_absence" ∷ [])
        else control_result s command facts now no_cancellation_request
    | interrupt ↦ decide_interrupt
    | invalidate ↦ decide_invalidate
    | decision_made ↦
        or_else refused_now
          (elim command.decision [ some d ↦ decide_decision d | none ↦ decide_gate ])
    | _ ↦ or_else refused_now decide_gate
  ]

  -- A command for the job as it is.
  unfoldable pub decide_control_current : HumanControlCandidate
  decide_control_current =
      if is_stale s command facts now
      then with_evidence s command facts now stale_candidate ("reload_current_facts" ∷ [])
      else decide_operation

  -- The operation of an authorized command: evidence first, and the identity of a decision.
  unfoldable pub decide_asked : HumanControlCandidate
  decide_asked = elim command.operation [
    | late_result ↦ decide_late_result s command facts now
    | decision_made ↦ or_else (refused_decision s command facts now) decide_control_current
    | _ ↦ decide_control_current
  ]

  unfoldable pub decide_human_control : HumanControlCandidate
  decide_human_control = or_else (refused_first s command facts now) decide_asked
