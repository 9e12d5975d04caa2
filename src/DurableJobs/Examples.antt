-- ===== src/DurableJobs/Examples.antt =====
-- A job whose worker is gone: recovered by a retry, taken over, and reported on too late.
use ai_backend_engineer_hand.Prelude.{
  ℕ, ◌≡◌, ◌≢◌, ◌↔◌, refl, true, false, none, some, [], ◌∷◌, ok, String_discrete, ℕ_discrete, arith,
  text_digest, str, join, prefixed, first_chars, string_eq,
}
use ai_backend_engineer_hand.AgentStateMachine.Types.{AgentState-discrete, running, completed}
use ai_backend_engineer_hand.DurableJobs.Types.{
  ExternalCertainty-discrete, definitely_not_dispatched, outcome_unknown, retry, held, settled,
  released, release, create_recovery_intent, applied, duplicate_replay,
}
use ai_backend_engineer_hand.DurableJobs.Records.{
  DurableCheckpoint, check_checkpoint, ReservationRecord, check_reservation, OutboxIntent,
  RecoveryOperation, automatic_recovery_available, DurableAgentJobRecord, RecoveryRequest,
  DurableRecoveryCandidate,
}
use ai_backend_engineer_hand.DurableJobs.Decide.{
  candidate, decide_live, decide_current, names_current, decide_durable_recovery,
}
use ai_backend_engineer_hand.DurableJobs.Store.{
  DurableJobStore, is_current, has_no_effect, release_reservation, change_reservation, change_own,
  change_reservations, lease_is_open, take_over_expired_lease, accept_result, next_checkpoint_id,
  next_checkpoint, recovered_job, apply,
}
use ai_backend_engineer_hand.DurableJobs.Recoveries.{MayRetry, decide-retry_iff}
use ai_backend_engineer_hand.DurableJobs.Reservations.{Conserves, release-Conserves_iff}
use ai_backend_engineer_hand.DurableJobs.Applied.{IsCurrent}
use ai_backend_engineer_hand.DurableJobs.Histories.{
  here, next, recover, report, IsMirrored, Reaches-terminal, applied_once,
}
use ai_backend_engineer_hand.DurableJobs.Leases.{late_result_refused, take_over-is_last}

abbrev checkpoint : DurableCheckpoint
checkpoint = record {
  tenant_id = "tenant";
  job_id = "job";
  step_id = "step";
  attempt_id = "attempt";
  checkpoint_id = "checkpoint";
  checkpoint_version = 3;
  authoritative_state = running;
  state_version = 4;
  fence_token = 7;
  lease_generation = 1;
  bindings = record {
    controller_release = "controller";
    prompt_binding = "prompt";
    provider_binding = "provider";
    tool_binding = "tool";
    policy_binding = "policy";
  };
  progress_fingerprint = "progress";
  verified_observation_ids = [];
  reservation_ids = "reservation" ∷ [];
  pending_reconciliation_ids = [];
  previous_checkpoint_id = none;
}

abbrev reservation : ReservationRecord
reservation = record {
  reservation_id = "reservation";
  attempt_id = "attempt";
  reserved_units = 10;
  status = held;
  settled_units = none;
  released_units = 0;
}

abbrev pub job : DurableAgentJobRecord
job = record {
  tenant_id = "tenant";
  job_id = "job";
  current_step_id = "step";
  current_attempt_id = "attempt";
  state = running;
  state_version = 4;
  fence_token = 7;
  lease_owner = some "worker-1";
  lease_expiry_epoch_ms = some 1000;
  lease_generation = 1;
  current_checkpoint = checkpoint;
  reservations = reservation ∷ [];
  recovery_operations = [];
  outbox_intents = [];
  audit_events = [];
}

abbrev store : DurableJobStore
store = record { job = job; applied_recovery_ids = [] }

abbrev pub operation : RecoveryOperation
operation = record {
  recovery_id = "recovery";
  source_attempt_id = "attempt";
  recovery_generation = 1;
  attempts_used = 0;
  attempt_limit = 3;
  deadline_epoch_ms = 9000;
  last_evidence_fingerprint = none;
}

-- The effect was provably not dispatched.
abbrev request : RecoveryRequest
request = record {
  recovery_id = "recovery";
  tenant_id = "tenant";
  job_id = "job";
  step_id = "step";
  attempt_id = "attempt";
  checkpoint_id = "checkpoint";
  expected_state = running;
  expected_state_version = 4;
  expected_fence_token = 7;
  now_epoch_ms = 2000;
  external_certainty = definitely_not_dispatched;
  current_authorization = true;
  original_binding_currently_allowed = true;
  internal_repair_required = false;
  verified_effect_unwanted = false;
  verified_usage_units = none;
}

abbrev retried : DurableRecoveryCandidate
unfolding candidate
retried =
    candidate request retry "SAFE_NEW_ATTEMPT_CANDIDATE"
      "original execution is proven not dispatched" running release create_recovery_intent
      ("new_attempt_identity_required" ∷ [])

retried_decided : decide_durable_recovery job operation request ≡ retried
unfolding retried candidate decide_live decide_current names_current decide_durable_recovery
    automatic_recovery_available String_discrete ℕ_discrete AgentState-discrete
    ExternalCertainty-discrete
retried_decided = refl

decide-retry_iff_example :
    ((decide_durable_recovery job operation request).decision ≡ retry)
    ↔ MayRetry job operation request
decide-retry_iff_example = decide-retry_iff job operation request

abbrev unknown_request : RecoveryRequest
unknown_request = record request { external_certainty = outcome_unknown }

retried_applied : (apply retried store).0 ≡ ok applied
unfolding retried candidate apply recovered_job next_checkpoint next_checkpoint_id check_checkpoint
    change_reservations change_own change_reservation release_reservation check_reservation
    has_no_effect is_current str join prefixed first_chars String_discrete ℕ_discrete
    AgentState-discrete
retried_applied = refl

-- The store's guards on the retry, one by one.
retried-IsCurrent : IsCurrent retried job
unfolding retried candidate
retried-IsCurrent = ground arith

checkpoint_checked : check_checkpoint checkpoint ≡ ok checkpoint
unfolding check_checkpoint String_discrete
checkpoint_checked = refl

reservations_changed :
    change_reservations retried (reservation ∷ [])
    ≡ ok (record reservation { status = released; released_units = 10 } ∷ [])
unfolding retried candidate change_reservations change_own change_reservation release_reservation
    check_reservation String_discrete
reservations_changed = refl

has_effect : has_no_effect retried.decision retried.reservation_action retried.outbox_action ≡ false
unfolding retried candidate has_no_effect
has_effect = refl

applied_once_example :
    let t = (accept_result "worker-1" 7 "evidence" (apply retried store).1).1 in
    apply retried t ≡ (ok duplicate_replay, t)
applied_once_example =
    applied_once retried store retried_applied
      (next here (report (apply retried store).1 "worker-1" 7 "evidence"))

store-IsMirrored : IsMirrored store
store-IsMirrored = record { state = refl; state_version = refl; fence_token = omega arith }

abbrev finished : DurableJobStore
finished = record store { job = record job { state = completed } }

Reaches-terminal_example :
    (apply (decide_durable_recovery job operation request) finished).1.job.state ≡ completed
Reaches-terminal_example =
    Reaches-terminal (next here (recover finished job operation request)) refl

taken_over : (take_over_expired_lease "worker-2" 2000 store).0 ≡ true
unfolding take_over_expired_lease lease_is_open
taken_over = refl

late_result_refused_example :
    (accept_result "worker-1" 7 "evidence" (take_over_expired_lease "worker-2" 2000 store).1).0
    ≢ true
late_result_refused_example =
    late_result_refused "worker-2" "worker-1" 2000 7 "evidence" store taken_over here (omega arith)

take_over-is_last_example :
    (take_over_expired_lease "worker-3" 999999 (take_over_expired_lease "worker-2" 2000 store).1).0
    ≢ true
take_over-is_last_example =
    take_over-is_last "worker-2" "worker-3" 2000 999999 store taken_over here

-- A reservation that was settled before.
abbrev settled_before : ReservationRecord
settled_before = record reservation { status = settled; settled_units = some 4; released_units = 6 }

settled_released :
    release_reservation settled_before
    ≡ ok (record settled_before { status = released; released_units = 10 })
unfolding release_reservation check_reservation String_discrete
settled_released = refl

release-Conserves_iff_example :
    Conserves (record settled_before { status = released; released_units = 10 }) ↔ (◌≡◌ {A = ℕ} 4 0)
release-Conserves_iff_example = release-Conserves_iff settled_before _ settled_released

abbrev intent : OutboxIntent
intent = record {
  event_id = "recovery:recovery";
  job_id = "job";
  step_id = "step";
  attempt_id = "attempt";
  event_type = "RETRY";
  published_at_epoch_ms = none;
}
