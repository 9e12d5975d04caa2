-- ===== src/DurableJobs/Store.antt =====
-- `InMemoryDurableAgentJobStore` of projects/ai-agent/src/durable_agent_jobs.py.
use ai_backend_engineer_hand.Prelude.{
  ℕ, String, ◌+◌, ◌-◌, Bool, true, false, not, ◌||◌, ◌&&◌, Option, none, some, List, [], ◌∷◌, ◌++◌,
  Result, ok, raised, value_error, ◌>>=◌, ◌==◌, string_eq, nat_eq, option_eq, leb, leb_ℤ, ℤ, pos,
  pos_part, is_in, is_none, Sha256, join, str, prefixed, first_chars, if◌then◌else◌,
}
use ai_backend_engineer_hand.AgentStateMachine.Types.{is_terminal, agent_state_eq}
use ai_backend_engineer_hand.DurableJobs.Types.{
  DurableRecoveryDecision, reconcile, repair, settle, compensate, escalate, blocked, terminal_noop,
  reject_stale, recovery_value, settled, released, ReservationAction, no_change, release,
  settle_verified, OutboxAction, no_outbox, create_recovery_intent, publish_original_intent,
  RecoveryApplyStatus, applied, duplicate_replay, noop_stale, noop_terminal, not_applicable,
}
use ai_backend_engineer_hand.DurableJobs.Records.{
  DurableCheckpoint, check_checkpoint, ReservationRecord, check_reservation, OutboxIntent,
  RecoveryOperation, DurableAgentJobRecord, DurableRecoveryCandidate,
}

-- The store: `record`, under the name `job`, and `_applied_recovery_ids`.
pub record DurableJobStore : Type 0 where
  pub job : DurableAgentJobRecord
  pub applied_recovery_ids : List String

-- `InMemoryDurableAgentJobStore(record)`.
unfoldable pub new_store : DurableAgentJobRecord → DurableJobStore
new_store r = record { job = r; applied_recovery_ids = [] }

-- The candidate was computed from the job as it is.
unfoldable pub is_current : DurableRecoveryCandidate → DurableAgentJobRecord → Bool
is_current c j =
    c.tenant_id == j.tenant_id
    && c.job_id == j.job_id
    && c.step_id == j.current_step_id
    && c.attempt_id == j.current_attempt_id
    && c.checkpoint_id == j.current_checkpoint.checkpoint_id
    && c.expected_state == j.state
    && c.expected_state_version == j.state_version
    && c.expected_fence_token == j.fence_token

-- `candidate.decision in terminal_allowed`.
unfoldable pub terminal_allowed : DurableRecoveryDecision → Bool
terminal_allowed reconcile = true
terminal_allowed repair = true
terminal_allowed settle = true
terminal_allowed compensate = true
terminal_allowed escalate = true
terminal_allowed _ = false

-- A decision with nothing to apply.
unfoldable pub has_no_effect : DurableRecoveryDecision → ReservationAction → OutboxAction → Bool
has_no_effect reject_stale a o = true
has_no_effect terminal_noop a o = true
has_no_effect blocked no_change no_outbox = true
has_no_effect _ _ _ = false

-- `replace(reservation, status=RELEASED, ...)`.
unfoldable pub release_reservation : ReservationRecord → Result ReservationRecord
release_reservation r =
    check_reservation (record r { status = released; released_units = r.reserved_units })

-- The settlement of one reservation; a usage that is missing or does not fit raises.
unfoldable pub settle_reservation : Option ℤ → ReservationRecord → Result ReservationRecord
settle_reservation none r = raised (value_error "verified usage does not fit reservation")
settle_reservation (some actual) r =
    if not (leb_ℤ (pos 0) actual && leb_ℤ actual (pos r.reserved_units))
    then raised (value_error "verified usage does not fit reservation")
    else check_reservation (record r {
      status = settled;
      settled_units = some (pos_part actual);
      released_units = r.reserved_units - pos_part actual;
    })

-- What the reservation action makes of a reservation of the candidate's attempt.
unfoldable pub change_reservation :
    ReservationAction → Option ℤ → ReservationRecord → Result ReservationRecord
unfolding release_reservation settle_reservation
change_reservation release usage r = release_reservation r
change_reservation settle_verified usage r = settle_reservation usage r
change_reservation _ usage r = ok r

-- The loop's body: another attempt's reservation is skipped.
unfoldable pub change_own : DurableRecoveryCandidate → ReservationRecord → Result ReservationRecord
change_own c r =
    if not (r.attempt_id == c.attempt_id)
    then ok r
    else change_reservation c.reservation_action c.verified_usage_units r

-- The loop over the reservations.
unfoldable pub change_reservations :
    DurableRecoveryCandidate → List ReservationRecord → Result (List ReservationRecord)
change_reservations c [] = ok []
change_reservations c (r ∷ rs) = do
  r' ← change_own c r
  rs' ← change_reservations c rs
  ok (r' ∷ rs')

-- The intents with the one that the outbox action adds.
unfoldable pub add_intent : DurableRecoveryCandidate → DurableAgentJobRecord → List OutboxIntent
add_intent c j = elim c.outbox_action [
  | create_recovery_intent ↦
      j.outbox_intents
      ++ record {
        event_id = prefixed "recovery:" c.recovery_id;
        job_id = j.job_id;
        step_id = j.current_step_id;
        attempt_id = j.current_attempt_id;
        event_type = recovery_value c.decision;
        published_at_epoch_ms = none;
      }
        ∷ []
  | no_outbox ↦ j.outbox_intents
  | publish_original_intent ↦ j.outbox_intents
]

-- `take_over_expired_lease`.
unfoldable pub lease_is_open : Option ℕ → ℕ → Bool
lease_is_open none now = false
lease_is_open (some expiry) now = leb expiry now

unfoldable pub take_over_expired_lease : String → ℕ → DurableJobStore → Bool × DurableJobStore
take_over_expired_lease worker_id now s =
    let j = s.job in
    if not (lease_is_open j.lease_expiry_epoch_ms now) || is_terminal j.state then (false, s) else (
      true,
      record s {
        job = record j {
          lease_owner = some worker_id;
          lease_expiry_epoch_ms = none;
          lease_generation = j.lease_generation + 1;
          fence_token = j.fence_token + 1;
          audit_events = j.audit_events ++ prefixed "lease_taken_over:" worker_id ∷ [];
        };
      },
    )

-- `unpublished_outbox_intents`.
unfoldable pub unpublished : List OutboxIntent → List OutboxIntent
unpublished [] = []
unpublished (i ∷ is) =
    if is_none i.published_at_epoch_ms then i ∷ unpublished is else unpublished is

unfoldable pub unpublished_outbox_intents : DurableJobStore → List OutboxIntent
unfolding unpublished
unpublished_outbox_intents s = unpublished s.job.outbox_intents

-- `accept_result`: the evidence is kept whether or not the worker may write.
unfoldable pub accept_result : String → ℕ → String → DurableJobStore → Bool × DurableJobStore
accept_result worker_id fence evidence_id s =
    let j = s.job in
    (
      j.lease_owner == some worker_id && j.fence_token == fence && not (is_terminal j.state),
      record s {
        job = record j {
          audit_events = j.audit_events ++ prefixed "late_or_current_result:" evidence_id ∷ [];
        };
      },
    )

module _ ⦃sha : Sha256⦄ where
  -- `_next_checkpoint_id`.
  unfoldable pub next_checkpoint_id : DurableCheckpoint → String → String
  next_checkpoint_id c recovery_id = prefixed "checkpoint-" (
      first_chars 20 (
        sha.hex_digest
          (join "\u{1f}" (c.checkpoint_id ∷ str c.checkpoint_version ∷ recovery_id ∷ []))))

  -- `replace(checkpoint, ...)`.
  unfoldable pub next_checkpoint :
      DurableRecoveryCandidate → DurableAgentJobRecord → Result DurableCheckpoint
  next_checkpoint c j =
      let checkpoint = j.current_checkpoint in
      check_checkpoint (record checkpoint {
        checkpoint_id = next_checkpoint_id checkpoint c.recovery_id;
        checkpoint_version = checkpoint.checkpoint_version + 1;
        authoritative_state = c.next_state;
        state_version = j.state_version + 1;
        fence_token = j.fence_token + 1;
        previous_checkpoint_id = some checkpoint.checkpoint_id;
      })

  -- The recovery operation that an applied candidate appends: used up and with no time left.
  unfoldable pub recovery_operation :
      DurableRecoveryCandidate → DurableAgentJobRecord → RecoveryOperation
  recovery_operation c j = record {
    recovery_id = c.recovery_id;
    source_attempt_id = j.current_attempt_id;
    recovery_generation = j.lease_generation;
    attempts_used = 1;
    attempt_limit = 1;
    deadline_epoch_ms = 0;
    last_evidence_fingerprint = some (sha.hex_digest (join "\u{1f}" c.evidence));
  }

  -- The job after the candidate; whatever raises does so before anything is written.
  unfoldable pub recovered_job :
      DurableRecoveryCandidate → DurableAgentJobRecord → Result DurableAgentJobRecord
  recovered_job c j = do
    reservations ← change_reservations c j.reservations
    checkpoint ← next_checkpoint c j
    ok (record j {
      state = c.next_state;
      state_version = j.state_version + 1;
      fence_token = j.fence_token + 1;
      current_checkpoint = checkpoint;
      reservations = reservations;
      recovery_operations = j.recovery_operations ++ recovery_operation c j ∷ [];
      outbox_intents = add_intent c j;
      audit_events = j.audit_events ++ prefixed "recovery_applied:" c.recovery_id ∷ [];
    })

  -- The writes, all at once.
  unfoldable pub commit :
      Result DurableAgentJobRecord
      → DurableRecoveryCandidate
      → DurableJobStore
      → Result RecoveryApplyStatus × DurableJobStore
  commit (raised e) c s = (raised e, s)
  commit (ok j) c s = (
    ok applied,
    record { job = j; applied_recovery_ids = c.recovery_id ∷ s.applied_recovery_ids },
  )

  unfoldable pub apply :
      DurableRecoveryCandidate → DurableJobStore → Result RecoveryApplyStatus × DurableJobStore
  unfolding commit
  apply c s =
      if is_in c.recovery_id s.applied_recovery_ids
      then (ok duplicate_replay, s)
      else if not (is_current c s.job)
      then (ok noop_stale, s)
      else if is_terminal s.job.state && not (terminal_allowed c.decision)
      then (ok noop_terminal, s)
      else if has_no_effect c.decision c.reservation_action c.outbox_action
      then (ok not_applicable, s)
      else commit (recovered_job c s.job) c s
