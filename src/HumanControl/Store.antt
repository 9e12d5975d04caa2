-- ===== src/HumanControl/Store.antt =====
-- `InMemoryHumanControlStore` of projects/ai-agent/src/human_control.py. Each operation runs under the
-- store's lock, so it is a function of the store; what raises does so before anything is written.
use ai_backend_engineer_hand.Prelude.{
  ℕ, String, ◌+◌, Bool, true, false, ◌||◌, ◌&&◌, Option, none, some, List, [], ◌∷◌, ◌++◌, Dict,
  Result, ok, ◌>>=◌, ◌==◌, string_eq, nat_eq, option_eq, is_some, if◌then◌else◌,
}
use ai_backend_engineer_hand.DurableJobs.Types.{external_certainty_eq, held}
use ai_backend_engineer_hand.DurableJobs.Records.{
  ReservationRecord, OutboxIntent, RecoveryOperation,
}
use ai_backend_engineer_hand.DurableJobs.Store as Durable
use ai_backend_engineer_hand.HumanControl.Types.{
  pending, expired, revoked, superseded, cancelled, Operation, invalidate, ApprovalDecision,
  CurrentFacts, Command, Escalation, Snapshot, ControlStatus, policy_unavailable, decision_recorded,
  execution_candidate, reconcile_original, settle_usage, cancellation_observed,
  authorization_revoked, approval_is, escalated, interrupted, no_event, event_type_of,
  HumanControlCandidate, Fingerprints, status_text,
}
use ai_backend_engineer_hand.HumanControl.Equality.{
  operation_eq, reservation_status_eq, command_eq, control_candidate_eq,
}
use ai_backend_engineer_hand.HumanControl.Decide.{decide_human_control}
use ai_backend_engineer_hand.HumanControl.Recover.{last_recovery}

pub record HumanControlStore : Type 0 where
  pub snapshot : Snapshot
  pub commands : Dict Command

-- What `apply` answers; `"STALE_CANDIDATE"` is `stale_snapshot` and `"APPLIED"` is `control_applied`.
pub data ControlReply : Type 0 where
  duplicate_command command_identity_conflict stale_snapshot current_facts_changed audit_only
        recovery_apply_rejected unsafe_release_rejected control_applied :
      ControlReply

-- What the transition of a candidate comes to.
pub data Transition : Type 0 where
  turned_down : ControlReply → Transition
  moved : Snapshot → Transition

-- `candidate.status in transitions`, or one of the two prefixes.
unfoldable pub is_transition : Operation → ControlStatus → Bool
is_transition op decision_recorded = true
is_transition op execution_candidate = true
is_transition op (approval_is pending) = true
is_transition op (approval_is expired) = true
is_transition op (approval_is revoked) = op == invalidate
is_transition op (approval_is cancelled) = op == invalidate
is_transition op (approval_is superseded) = op == invalidate
is_transition op policy_unavailable = true
is_transition op reconcile_original = true
is_transition op settle_usage = true
is_transition op cancellation_observed = true
is_transition op authorization_revoked = true
is_transition op (escalated reason) = true
is_transition op (interrupted unused) = true
is_transition op _ = false

-- `candidate.status.startswith("INTERRUPTED_")`.
unfoldable pub is_interrupting : ControlStatus → Bool
is_interrupting (interrupted unused) = true
is_interrupting _ = false

-- The decision of a command, in a list.
unfoldable pub decision_of : Command → List ApprovalDecision
decision_of c = elim c.decision [ none ↦ [] | some d ↦ d ∷ [] ]

-- `RELEASED` for what the attempt still holds.
unfoldable pub release_held : String → List ReservationRecord → Result (List ReservationRecord)
release_held attempt [] = ok []
release_held attempt (r ∷ rs) = do
  first ←
      (if r.attempt_id == attempt && r.status == held then Durable.release_reservation r else ok r)
  rest ← release_held attempt rs
  ok (first ∷ rest)

-- `any(e.event_id == event_id for e in events)`.
unfoldable pub has_event : String → List OutboxIntent → Bool
has_event id [] = false
has_event id (e ∷ es) = e.event_id == id || has_event id es

-- The decisions after a candidate: only a recorded decision is one.
unfoldable pub decisions_after :
    HumanControlCandidate → List ApprovalDecision → List ApprovalDecision
decisions_after c decisions = elim c.status [
  | decision_recorded ↦ decisions ++ decision_of c.command
  | _ ↦ decisions
]

unfoldable pub observed_after : HumanControlCandidate → List String → List String
observed_after c observed = elim c.status [
  | cancellation_observed ↦ observed ++ c.command.actor.actor_id ∷ []
  | _ ↦ observed
]

unfoldable pub escalations_after : Option Escalation → List Escalation → List Escalation
escalations_after none escalations = escalations
escalations_after (some e) escalations = escalations ++ e ∷ []

-- The evidence of a message that changes nothing else.
unfoldable pub audited : HumanControlCandidate → Snapshot → Snapshot
audited c s = record s {
  decision_evidence = s.decision_evidence ++ decision_of c.command;
  job =
      let job = s.job in
      record job { audit_events = job.audit_events ++ status_text c.status ∷ c.evidence };
}

module _ ⦃prints : Fingerprints⦄ where
  -- The outbox after a candidate: an event that is there is not added again.
  unfoldable pub events_after :
      HumanControlCandidate → Snapshot → List OutboxIntent → List OutboxIntent
  events_after c s events = elim c.outbox_action [
    | no_event ↦ events
    | action ↦
        let event_id = prints.of_texts (
          prints.of_action s.action
          ∷ s.request.request_id
          ∷ event_type_of action
          ∷ (if is_some c.escalation || event_type_of action == "RECONCILIATION_QUERY"
              then c.command.command_id
              else "")
          ∷ []) in
        if has_event event_id events
        then events
        else events
          ++ record {
            event_id = event_id;
            job_id = s.job.job_id;
            step_id = s.job.current_step_id;
            attempt_id = s.job.current_attempt_id;
            event_type = event_type_of action;
            published_at_epoch_ms = none;
          }
            ∷ []
  ]

  -- The recovery that a transition records.
  unfoldable pub recorded_recovery :
      HumanControlCandidate → Snapshot → CurrentFacts → RecoveryOperation
  recorded_recovery c s facts =
      let operation = last_recovery s.action.attempt_id facts.recovery s.job.recovery_operations in
      record operation {
        recovery_id = c.command.command_id;
        attempts_used = operation.attempts_used + elim c.status [ reconcile_original ↦ 1 | _ ↦ 0 ];
        last_evidence_fingerprint = some (prints.of_texts c.evidence);
      }

  -- The candidate is the one of the snapshot and the facts as they are.
  unfoldable pub is_fresh : HumanControlCandidate → CurrentFacts → ℕ → Snapshot → Bool
  is_fresh c facts now s = decide_human_control s c.command facts now == c
