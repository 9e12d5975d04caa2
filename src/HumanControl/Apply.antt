-- ===== src/HumanControl/Apply.antt =====
-- `plan` and `apply` of `InMemoryHumanControlStore` (projects/ai-agent/src/human_control.py).
use ai_backend_engineer_hand.Prelude.{
  ℕ, ◌+◌, Bool, true, false, not, ◌||◌, Option, none, some, List, [], ◌∷◌, ◌++◌, lookup, insert,
  Result, ok, raised, runtime_error, ◌>>=◌, ◌==◌, string_eq, nat_eq, option_eq, is_some, Sha256,
  prefixed, if◌then◌else◌,
}
use ai_backend_engineer_hand.DurableJobs.Types.{
  definitely_not_dispatched, external_certainty_eq, release, applied,
}
use ai_backend_engineer_hand.DurableJobs.Records.{
  DurableCheckpoint, check_checkpoint, ReservationRecord, DurableAgentJobRecord,
}
use ai_backend_engineer_hand.DurableJobs.Store as Durable
use ai_backend_engineer_hand.HumanControl.Types.{
  CurrentFacts, Command, Snapshot, HumanControlCandidate, Fingerprints, status_text,
}
use ai_backend_engineer_hand.HumanControl.Equality.{command_eq}
use ai_backend_engineer_hand.HumanControl.Decide.{decide_human_control}
use ai_backend_engineer_hand.HumanControl.Store.{
  HumanControlStore, ControlReply, duplicate_command, command_identity_conflict, stale_snapshot,
  current_facts_changed, audit_only, recovery_apply_rejected, unsafe_release_rejected,
  control_applied, Transition, turned_down, moved, is_transition, is_interrupting, decision_of,
  release_held, decisions_after, observed_after, escalations_after, audited, events_after,
  recorded_recovery, is_fresh,
}

-- `fail_before_commit`.
unfoldable pub injected : {A : Type 0} → Bool → A → Result A
injected true a = raised (runtime_error "INJECTED_BEFORE_COMMIT")
injected false a = ok a

-- `plan`.
unfoldable pub plan_control :
    ⦃prints : Fingerprints⦄ → Command → CurrentFacts → ℕ → HumanControlStore → HumanControlCandidate
plan_control command facts now store = decide_human_control store.snapshot command facts now

module _ ⦃prints : Fingerprints⦄ ⦃sha : Sha256⦄ where
  -- The recovery of the job, staged in a store of its own; its own event is not taken over.
  unfoldable pub staged_recovery :
      HumanControlCandidate → Snapshot → CurrentFacts → Result (Option DurableAgentJobRecord)
  staged_recovery c s facts = elim c.recovery_candidate [
    | none ↦ ok (some s.job)
    | some recovery ↦
        let (answer, staged) = Durable.apply recovery (Durable.new_store s.job) in
        elim answer [
          | raised e ↦ raised e
          | ok applied ↦ ok (
              some (
                let job = staged.job in
                record job {
                  recovery_operations =
                      s.job.recovery_operations ++ recorded_recovery c s facts ∷ [];
                  outbox_intents = s.job.outbox_intents;
                }))
          | ok _ ↦ ok none
        ]
  ]

  -- The checkpoint of a transition.
  unfoldable pub human_checkpoint :
      HumanControlCandidate → Snapshot → DurableAgentJobRecord → ℕ → Result DurableCheckpoint
  human_checkpoint c s next fence =
      let checkpoint = next.current_checkpoint in
      check_checkpoint (record checkpoint {
        checkpoint_id = prefixed "human:" c.command.command_id;
        checkpoint_version = s.job.current_checkpoint.checkpoint_version + 1;
        authoritative_state = c.next_state;
        state_version = s.job.state_version + 1;
        fence_token = fence;
        previous_checkpoint_id = some s.job.current_checkpoint.checkpoint_id;
      })

  -- The fence: that of a recovery, and one more for an interrupt.
  unfoldable pub next_fence : HumanControlCandidate → Snapshot → DurableAgentJobRecord → ℕ
  next_fence c s next =
      if is_some c.recovery_candidate
      then next.fence_token
      else s.job.fence_token + (if is_interrupting c.status then 1 else 0)

  -- The job after a transition, from the one a recovery made.
  unfoldable pub controlled_job :
      HumanControlCandidate
      → Snapshot
      → DurableAgentJobRecord
      → List ReservationRecord
      → DurableCheckpoint
      → DurableAgentJobRecord
  controlled_job c s next reservations checkpoint = record next {
    state = c.next_state;
    state_version = s.job.state_version + 1;
    fence_token = next_fence c s next;
    current_checkpoint = checkpoint;
    lease_owner = if is_interrupting c.status then none else next.lease_owner;
    lease_expiry_epoch_ms = if is_interrupting c.status then none else next.lease_expiry_epoch_ms;
    reservations = reservations;
    outbox_intents = events_after c s next.outbox_intents;
    audit_events = next.audit_events ++ status_text c.status ∷ c.evidence;
  }

  -- The snapshot after a transition.
  unfoldable pub controlled : HumanControlCandidate → Snapshot → DurableAgentJobRecord → Snapshot
  controlled c s job = record s {
    job = job;
    approval = c.approval_status;
    decisions = decisions_after c s.decisions;
    decision_evidence = s.decision_evidence ++ decision_of c.command;
    interrupt_id = if is_interrupting c.status then some c.command.command_id else s.interrupt_id;
    cancellation_observed_by = observed_after c s.cancellation_observed_by;
    escalations = escalations_after c.escalation s.escalations;
    checkpoint_history = s.checkpoint_history ++ s.job.current_checkpoint ∷ [];
  }

  -- `candidate.reservation_action` is a release of what may have been used.
  unfoldable pub is_unsafe_release : HumanControlCandidate → Snapshot → CurrentFacts → Bool
  is_unsafe_release c s facts = elim c.reservation_action [
    | release ↦ s.dispatch_started || not (facts.certainty == definitely_not_dispatched)
    | _ ↦ false
  ]

  unfoldable pub reservations_after :
      HumanControlCandidate → Snapshot → List ReservationRecord → Result (List ReservationRecord)
  reservations_after c s reservations = elim c.reservation_action [
    | release ↦ release_held s.action.attempt_id reservations
    | _ ↦ ok reservations
  ]

  -- The transition of a candidate, from the job that its recovery left.
  unfoldable pub transition_from :
      HumanControlCandidate → Snapshot → CurrentFacts → DurableAgentJobRecord → Result Transition
  transition_from c s facts next =
      if is_unsafe_release c s facts then ok (turned_down unsafe_release_rejected) else (do
        reservations ← reservations_after c s next.reservations
        checkpoint ← human_checkpoint c s next (next_fence c s next)
        ok (moved (controlled c s (controlled_job c s next reservations checkpoint))))

  unfoldable pub transition : HumanControlCandidate → Snapshot → CurrentFacts → Result Transition
  transition c s facts = elim (staged_recovery c s facts) [
    | raised e ↦ raised e
    | ok none ↦ ok (turned_down recovery_apply_rejected)
    | ok (some next) ↦ transition_from c s facts next
  ]

  -- One swap of the snapshot, with the command.
  unfoldable pub swapped :
      Result Snapshot
      → ControlReply
      → Command
      → HumanControlStore
      → Result ControlReply × HumanControlStore
  swapped (raised e) reply command store = (raised e, store)
  swapped (ok s) reply command store = (
    ok reply,
    record { snapshot = s; commands = insert command.command_id command store.commands },
  )

  -- A candidate that is the one of the snapshot and the facts.
  unfoldable pub apply_fresh :
      HumanControlCandidate
      → CurrentFacts
      → Bool
      → HumanControlStore
      → Result ControlReply × HumanControlStore
  apply_fresh c facts fail store =
      if not (is_transition c.command.operation c.status)
      then swapped (injected fail (audited c store.snapshot)) audit_only c.command store
      else elim (transition c store.snapshot facts) [
        | raised e ↦ (raised e, store)
        | ok (turned_down reply) ↦ (ok reply, store)
        | ok (moved s) ↦ swapped (injected fail s) control_applied c.command store
      ]

  -- `apply`.
  unfoldable pub apply_control :
      HumanControlCandidate
      → CurrentFacts
      → ℕ
      → Bool
      → HumanControlStore
      → Result ControlReply × HumanControlStore
  apply_control c facts now fail store = elim (lookup c.command.command_id store.commands) [
    | some previous ↦
        if previous == c.command
        then (ok duplicate_command, store)
        else (ok command_identity_conflict, store)
    | none ↦
        if not (c.snapshot_fingerprint == prints.of_snapshot store.snapshot)
        then (ok stale_snapshot, store)
        else if not (is_fresh c facts now store.snapshot)
        then (ok current_facts_changed, store)
        else apply_fresh c facts fail store
  ]
