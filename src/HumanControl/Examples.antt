-- ===== src/HumanControl/Examples.antt =====
-- An approved publication: dispatched once, applied once, and interrupted.
use ai_backend_engineer_hand.Prelude.{
  ℕ, ◌≡◌, ◌↔◌, refl, Bool, true, false, none, [], ◌∷◌, ok, inl, ◌+◌, Result, lookup, text_digest,
  join, str, prefixed, String_discrete, ℕ_discrete,
}
use ai_backend_engineer_hand.AgentStateMachine.Types.{
  AgentState-discrete, running, allowed_to_day74_admission,
}
use ai_backend_engineer_hand.DurableJobs.Types.{
  ExternalCertainty-discrete, definitely_not_dispatched,
}
use ai_backend_engineer_hand.DurableJobs.Records.{check_checkpoint, check_reservation, OutboxIntent}
use ai_backend_engineer_hand.DurableJobs.Store.{release_reservation}
use ai_backend_engineer_hand.DurableJobs.Examples.{job, operation}
use ai_backend_engineer_hand.HumanControl.Types.{
  ApprovalStatus-discrete, approved, high, gate, interrupt, Principal, ActionBinding,
  ApprovalDecision, CurrentFacts, Command, Snapshot, HumanControlCandidate, Fingerprints,
}
use ai_backend_engineer_hand.HumanControl.Equality.{
  Operation-discrete, GovernanceStatus-discrete, ReservationStatus-discrete, Principal-discrete,
  ActionBinding-discrete, ApprovalDecision-discrete, Command-discrete, Escalation-discrete,
  ControlStatus-discrete, ℤ-discrete, RecoveryCandidate-discrete, Candidate-discrete,
  RecoveryDecision-discrete,
}
use ai_backend_engineer_hand.HumanControl.Guards.{
  permitted, is_complete, authorized, is_separate, control_result, refused_first, is_stale,
}
use ai_backend_engineer_hand.HumanControl.Decide.{
  is_closed, holds_reservation, decide_interrupt, refused_now, is_current_approval,
  refused_execution, refused_approval, execution_allowed_now, decide_gate, decide_operation,
  decide_control_current, decide_asked, decide_human_control,
}
use ai_backend_engineer_hand.HumanControl.Store.{
  HumanControlStore, duplicate_command, control_applied, is_transition, is_interrupting,
  release_held, is_fresh,
}
use ai_backend_engineer_hand.HumanControl.Apply.{
  injected, staged_recovery, human_checkpoint, next_fence, is_unsafe_release, reservations_after,
  transition_from, transition, swapped, apply_fresh, apply_control,
}
use ai_backend_engineer_hand.HumanControl.Dispatch.{
  has_publication, has_open_lease, refused_claim, dispatch_command, claimed_snapshot,
  dispatch_checkpoint, send_claimed, dispatch_once,
}
use ai_backend_engineer_hand.HumanControl.Requirements.{MayExecute}
use ai_backend_engineer_hand.HumanControl.Executions.{execution_allowed_iff}
use ai_backend_engineer_hand.HumanControl.Guarantees.{
  here, next, dispatch, dispatch_once-last, interrupted-never_dispatches, command-applies_once,
  first_decision-final,
}

-- Fingerprints that name the parts which these examples tell apart.
instance abbrev plain_prints : Fingerprints
plain_prints = record {
  of_action = λ a. prefixed "action:" a.operation_id;
  of_decision = λ d. prefixed "decision:" d.decision_id;
  of_snapshot = λ s. prefixed "version:" (str s.job.state_version);
  of_bindings = λ b. b.controller_release;
  of_texts = λ texts. join "," texts;
}

abbrev worker : Principal
worker = record {
  tenant_id = "tenant";
  actor_id = "worker-1";
  role = "agent";
  authenticated = true;
  permissions = "control" ∷ "interrupt" ∷ "publish" ∷ [];
}

abbrev approver : Principal
approver = record {
  tenant_id = "tenant";
  actor_id = "human";
  role = "editor";
  authenticated = true;
  permissions = "control" ∷ "approve" ∷ [];
}

abbrev action : ActionBinding
action = record {
  tenant_id = "tenant";
  job_id = "job";
  step_id = "step";
  attempt_id = "attempt";
  operation_id = "operation";
  action_type = "publish";
  tool_name = "tool";
  tool_version = "1";
  arguments_fingerprint = "arguments";
  artifact_id = "artifact";
  artifact_version = "1";
  requester_id = "worker-1";
  policy_id = "policy";
  policy_version = "1";
  risk = high;
  execution_binding_fingerprint = "controller";
}

abbrev approval_decision : ApprovalDecision
approval_decision = record {
  decision_id = "decision";
  request_id = "request";
  binding_fingerprint = "action:operation";
  actor_id = "human";
  tenant_id = "tenant";
  choice = approved;
  decided_at = 20;
  reason_code = "fine";
}

abbrev publication : OutboxIntent
publication = record {
  event_id = "event";
  job_id = "job";
  step_id = "step";
  attempt_id = "attempt";
  event_type = "PUBLISH";
  published_at_epoch_ms = none;
}

abbrev approved_snapshot : Snapshot
approved_snapshot = record {
  job = record job { outbox_intents = publication ∷ [] };
  action = action;
  request = record {
    request_id = "request";
    binding = action;
    requested_at = 10;
    respond_by = 100;
    expires_at = 500;
    eligible_roles = "editor" ∷ [];
    separation_required = true;
    issued_state_version = 4;
    issued_fence = 7;
    supersedes = none;
  };
  approval = approved;
  decisions = approval_decision ∷ [];
  decision_evidence = approval_decision ∷ [];
  interrupt_id = none;
  cancellation_observed_by = [];
  dispatch_started = false;
  claimed_events = [];
  escalations = [];
  checkpoint_history = [];
}

abbrev facts : CurrentFacts
facts = record {
  executor = worker;
  approver = approver;
  policy_available = true;
  policy_id = "policy";
  policy_version = "1";
  policy_quarantined = false;
  approval_required = true;
  governance = allowed_to_day74_admission;
  admission_allowed = true;
  business_valid = true;
  budget_allowed = true;
  certainty = definitely_not_dispatched;
  recovery = operation;
  policy_wait_deadline = 1000;
  owner = approver;
  fallback_owner = approver;
  owner_available = true;
  escalation_deadline = 1000;
  verified_usage = none;
  outcome_evidence_id = none;
}

abbrev gate_command : Command
gate_command = record {
  command_id = "gate";
  operation = gate;
  actor = worker;
  expected_state = running;
  expected_state_version = 4;
  expected_fence = 7;
  decision = none;
  invalidate_to = none;
  evidence_id = none;
  source_attempt_id = none;
  source_operation_id = none;
  source_fence = none;
}

abbrev interrupt_command : Command
interrupt_command = record gate_command { command_id = "stop"; operation = interrupt }

abbrev control_store : HumanControlStore
control_store = record { snapshot = approved_snapshot; commands = [] }

-- The effect counts its calls.
abbrev counted : ActionBinding → ℕ → Result (Unit {0}) × ℕ
counted binding calls = (ok tt, calls + 1)

execution_allowed_iff_example :
    ((decide_human_control approved_snapshot gate_command facts 50).execution_allowed ≡ true)
    ↔ MayExecute approved_snapshot gate_command facts 50
execution_allowed_iff_example = execution_allowed_iff approved_snapshot gate_command facts 50

gate_allowed :
    (decide_human_control approved_snapshot gate_command facts 50).execution_allowed ≡ true
unfolding decide_human_control refused_first permitted is_complete decide_asked
    decide_control_current is_stale decide_operation refused_now is_closed decide_gate
    refused_execution refused_approval authorized is_separate is_current_approval holds_reservation
    execution_allowed_now control_result AgentState-discrete ExternalCertainty-discrete
    ApprovalStatus-discrete Operation-discrete GovernanceStatus-discrete ReservationStatus-discrete
    ActionBinding-discrete String_discrete ℕ_discrete prefixed
gate_allowed = refl

abbrev first_dispatch : Result Bool × HumanControlStore × ℕ
unfolding dispatch_once
first_dispatch = dispatch_once counted "event" worker 7 facts 50 control_store 0

first_dispatch_sent : first_dispatch.0 ≡ ok true
unfolding first_dispatch refused_claim has_publication has_open_lease dispatch_command
    decide_human_control refused_first permitted is_complete decide_asked decide_control_current
    is_stale decide_operation refused_now is_closed decide_gate refused_execution refused_approval
    authorized is_separate is_current_approval holds_reservation execution_allowed_now
    control_result AgentState-discrete ExternalCertainty-discrete ApprovalStatus-discrete
    Operation-discrete GovernanceStatus-discrete ReservationStatus-discrete ActionBinding-discrete
    String_discrete ℕ_discrete prefixed dispatch_checkpoint check_checkpoint send_claimed
    claimed_snapshot
first_dispatch_sent = refl

dispatch_once-last_example :
    dispatch_once counted "event" worker 7 facts 60 first_dispatch.1 1
    ≡ (ok false, first_dispatch.1, 1)
unfolding dispatch_once first_dispatch
dispatch_once-last_example =
    dispatch_once-last counted "event" "event" worker worker 7 7 facts facts 50 60 control_store
      first_dispatch.1 0 1 (inl first_dispatch_sent) here

abbrev stop : HumanControlCandidate
unfolding decide_human_control
stop = decide_human_control approved_snapshot interrupt_command facts 50

abbrev stopped : HumanControlStore
unfolding apply_control
stopped = (apply_control stop facts 50 false control_store).1

stop_applied : (apply_control stop facts 50 false control_store).0 ≡ ok control_applied
unfolding stop apply_control lookup is_fresh decide_human_control refused_first permitted
    is_complete decide_asked decide_control_current is_stale decide_operation decide_interrupt
    authorized is_separate control_result AgentState-discrete ExternalCertainty-discrete
    Operation-discrete String_discrete ℕ_discrete prefixed str join Candidate-discrete
    Command-discrete ControlStatus-discrete Principal-discrete Escalation-discrete
    ApprovalDecision-discrete ApprovalStatus-discrete ℤ-discrete RecoveryCandidate-discrete
    RecoveryDecision-discrete apply_fresh is_transition transition staged_recovery transition_from
    is_unsafe_release reservations_after release_held release_reservation check_reservation
    ReservationStatus-discrete human_checkpoint check_checkpoint next_fence is_interrupting swapped
    injected
stop_applied = refl

stop_interrupts : is_interrupting stop.status ≡ true
unfolding stop decide_human_control refused_first permitted is_complete decide_asked
    decide_control_current is_stale decide_operation decide_interrupt authorized is_separate
    control_result AgentState-discrete ExternalCertainty-discrete Operation-discrete String_discrete
    ℕ_discrete prefixed is_interrupting
stop_interrupts = refl

interrupted-never_dispatches_example :
    dispatch_once counted "event" worker 8 facts 60 stopped 0 ≡ (ok false, stopped, 0)
unfolding stopped
interrupted-never_dispatches_example =
    interrupted-never_dispatches counted stop facts facts 50 60 false control_store stopped "event"
      worker 8 0 stop_applied stop_interrupts here

command-applies_once_example :
    apply_control stop facts 60 false stopped ≡ (ok duplicate_command, stopped)
unfolding stopped stop decide_human_control Command-discrete String_discrete refused_first
    is_complete permitted decide_asked decide_control_current is_stale AgentState-discrete
    decide_operation decide_interrupt control_result Operation-discrete Principal-discrete
    ℕ_discrete
command-applies_once_example =
    command-applies_once counted stop stop facts facts 50 60 false false control_store stopped
      (inl stop_applied) here refl

first_decision-final_example : first_dispatch.1.snapshot.decisions ≡ approval_decision ∷ []
unfolding first_dispatch
first_decision-final_example =
    first_decision-final counted control_store first_dispatch.1 approval_decision [] refl
      (next here (dispatch "event" worker 7 facts 50 control_store 0))
