-- ===== src/DurableJobs/Applied.antt =====
-- What one `apply` of the durable job store does.
use ai_backend_engineer_hand.Prelude.{
  String, ◌+◌, ◌≡◌, refl, ◌≢◌, ◌↔◌, ◌⊎◌, inl, inr, true, false, string_eq, some, [], ◌∷◌, ◌++◌, ok,
  is_ok, Result-cases, >>=-eq-ok, is_in, arith, Sha256, prefixed, prefixed-ne_empty, ne_by_test,
}
use ai_backend_engineer_hand.AgentStateMachine.Types.{is_terminal}
use ai_backend_engineer_hand.DurableJobs.Types.{
  DurableRecoveryDecision, reject_stale, terminal_noop, ReservationAction, OutboxAction, applied,
  duplicate_replay,
}
use ai_backend_engineer_hand.DurableJobs.Records.{
  DurableCheckpoint, check_checkpoint, DurableAgentJobRecord, DurableRecoveryCandidate,
}
use ai_backend_engineer_hand.DurableJobs.Store.{
  DurableJobStore, is_current, terminal_allowed, has_no_effect, change_reservations, add_intent,
  next_checkpoint_id, next_checkpoint, recovered_job, apply,
}

-- A candidate that is current for a job.
pub record IsCurrent (c : DurableRecoveryCandidate) (j : DurableAgentJobRecord) : Type 0 where
  pub tenant_id : c.tenant_id ≡ j.tenant_id
  pub job_id : c.job_id ≡ j.job_id
  pub step_id : c.step_id ≡ j.current_step_id
  pub attempt_id : c.attempt_id ≡ j.current_attempt_id
  pub checkpoint_id : c.checkpoint_id ≡ j.current_checkpoint.checkpoint_id
  pub expected_state : c.expected_state ≡ j.state
  pub expected_state_version : c.expected_state_version ≡ j.state_version
  pub expected_fence_token : c.expected_fence_token ≡ j.fence_token

pub is_current_iff :
    (c : DurableRecoveryCandidate) (j : DurableAgentJobRecord)
    → (is_current c j ≡ true) ↔ IsCurrent c j
unfolding is_current
is_current_iff c j = ground arith

-- What an applied candidate makes of the job.
pub record Advances (c : DurableRecoveryCandidate) (j j' : DurableAgentJobRecord) : Type 0 where
  pub state : j'.state ≡ c.next_state
  pub state_version : j'.state_version ≡ j.state_version + 1
  pub fence_token : j'.fence_token ≡ j.fence_token + 1
  pub tenant_id : j'.tenant_id ≡ j.tenant_id
  pub job_id : j'.job_id ≡ j.job_id
  pub step_id : j'.current_step_id ≡ j.current_step_id
  pub attempt_id : j'.current_attempt_id ≡ j.current_attempt_id
  pub lease_owner : j'.lease_owner ≡ j.lease_owner
  pub lease_expiry : j'.lease_expiry_epoch_ms ≡ j.lease_expiry_epoch_ms
  pub checkpoint_state : j'.current_checkpoint.authoritative_state ≡ c.next_state
  pub checkpoint_state_version : j'.current_checkpoint.state_version ≡ j'.state_version
  pub checkpoint_fence_token : j'.current_checkpoint.fence_token ≡ j'.fence_token
  pub checkpoint_version :
      j'.current_checkpoint.checkpoint_version ≡ j.current_checkpoint.checkpoint_version + 1
  pub checkpoint_previous :
      j'.current_checkpoint.previous_checkpoint_id ≡ some j.current_checkpoint.checkpoint_id
  pub bindings : j'.current_checkpoint.bindings ≡ j.current_checkpoint.bindings
  pub checkpoint_checked : check_checkpoint j'.current_checkpoint ≡ ok j'.current_checkpoint
  pub reservations : change_reservations c j.reservations ≡ ok j'.reservations
  pub outbox_intents : j'.outbox_intents ≡ add_intent c j
  pub audit_events :
      j'.audit_events ≡ j.audit_events ++ prefixed "recovery_applied:" c.recovery_id ∷ []

module _ ⦃sha : Sha256⦄ where
  next_checkpoint_facts :
      (c : DurableRecoveryCandidate) (j : DurableAgentJobRecord) (k : DurableCheckpoint)
      → next_checkpoint c j ≡ ok k
      → (k.authoritative_state ≡ c.next_state)
        × (k.state_version ≡ j.state_version + 1)
        × (k.fence_token ≡ j.fence_token + 1)
        × (k.checkpoint_version ≡ j.current_checkpoint.checkpoint_version + 1)
        × (k.previous_checkpoint_id ≡ some j.current_checkpoint.checkpoint_id)
        × (k.bindings ≡ j.current_checkpoint.bindings)
        × (check_checkpoint k ≡ ok k)
  unfolding next_checkpoint check_checkpoint
  next_checkpoint_facts c j k h = ground arith

  recovered_job_facts :
      (c : DurableRecoveryCandidate) (j j' : DurableAgentJobRecord)
      → recovered_job c j ≡ ok j'
      → Advances c j j'
  unfolding recovered_job
  recovered_job_facts c j j' h =
      let (rs, changed, rest) = >>=-eq-ok (change_reservations c j.reservations) _ h in
      let (k, checkpoint, done) = >>=-eq-ok (next_checkpoint c j) _ rest in
      ground (arith, next_checkpoint_facts c j k checkpoint)

  -- A status other than `applied`, and an exception, leave the store as it was.
  pub apply_frame :
      (c : DurableRecoveryCandidate) (s : DurableJobStore)
      → (apply c s).0 ≢ ok applied
      → (apply c s).1 ≡ s
  unfolding apply
  apply_frame c s h = ground arith

  apply_guards :
      (c : DurableRecoveryCandidate) (s : DurableJobStore)
      → (apply c s).0 ≡ ok applied
      → (is_current c s.job ≡ true)
        × (is_in c.recovery_id s.applied_recovery_ids ≡ false)
        × (is_terminal s.job.state ≡ true → terminal_allowed c.decision ≡ true)
        × (has_no_effect c.decision c.reservation_action c.outbox_action ≡ false)
        × (recovered_job c s.job ≡ ok (apply c s).1.job)
        × ((apply c s).1.applied_recovery_ids ≡ c.recovery_id ∷ s.applied_recovery_ids)
  unfolding apply
  apply_guards c s h = elim (Result-cases (recovered_job c s.job)) [
    | inl done ↦ ground arith
    | inr failed ↦ ground arith
  ]

  effect_of_test :
      (d : DurableRecoveryDecision) (a : ReservationAction) (o : OutboxAction)
      → has_no_effect d a o ≡ false
      → (d ≢ reject_stale) × (d ≢ terminal_noop)
  unfolding has_no_effect
  effect_of_test d a o h = ground arith

  -- Only a candidate that is current, new and allowed in the job's state is applied, and one that is
  -- applied advances the job and is remembered.
  pub apply-applied :
      (c : DurableRecoveryCandidate) (s : DurableJobStore)
      → (apply c s).0 ≡ ok applied
      → IsCurrent c s.job
        × (is_in c.recovery_id s.applied_recovery_ids ≡ false)
        × (is_terminal s.job.state ≡ true → terminal_allowed c.decision ≡ true)
        × ((c.decision ≢ reject_stale) × (c.decision ≢ terminal_noop))
        × Advances c s.job (apply c s).1.job
        × ((apply c s).1.applied_recovery_ids ≡ c.recovery_id ∷ s.applied_recovery_ids)
  apply-applied c s h =
      let g = apply_guards c s h in
      (
        (is_current_iff c s.job).0 g.0,
        g.1,
        g.2,
        effect_of_test c.decision c.reservation_action c.outbox_action g.3,
        recovered_job_facts c s.job (apply c s).1.job g.4,
        g.5,
      )

  -- A candidate that was applied before is reported as a replay and changes nothing.
  pub apply-replay :
      (c : DurableRecoveryCandidate) (s : DurableJobStore)
      → is_in c.recovery_id s.applied_recovery_ids ≡ true
      → apply c s ≡ (ok duplicate_replay, s)
  unfolding apply
  apply-replay c s h = ground arith

  next_checkpoint_id-ne_empty :
      (k : DurableCheckpoint) (recovery_id : String) → next_checkpoint_id k recovery_id ≢ ""
  unfolding next_checkpoint_id
  next_checkpoint_id-ne_empty k recovery_id =
      prefixed-ne_empty "checkpoint-" _ (ne_by_test "checkpoint-" "" refl)

  next_checkpoint-is_ok :
      (c : DurableRecoveryCandidate) (j : DurableAgentJobRecord)
      → check_checkpoint j.current_checkpoint ≡ ok j.current_checkpoint
      → is_ok (next_checkpoint c j) ≡ true
  unfolding next_checkpoint check_checkpoint
  next_checkpoint-is_ok c j h =
      ground (arith, next_checkpoint_id-ne_empty j.current_checkpoint c.recovery_id)

  -- A recovery that is current, new, allowed in the job's state and not without effect is applied,
  -- if the job's checkpoint passes its checks and the change of its reservations does not raise.
  apply-succeeds :
      (c : DurableRecoveryCandidate) (s : DurableJobStore)
      → IsCurrent c s.job
      → is_in c.recovery_id s.applied_recovery_ids ≡ false
      → (is_terminal s.job.state ≡ false) ⊎ (terminal_allowed c.decision ≡ true)
      → has_no_effect c.decision c.reservation_action c.outbox_action ≡ false
      → check_checkpoint s.job.current_checkpoint ≡ ok s.job.current_checkpoint
      → is_ok (change_reservations c s.job.reservations) ≡ true
      → (apply c s).0 ≡ ok applied
  unfolding apply recovered_job
  apply-succeeds c s current new allowed effect valid fits =
      ground (arith, (is_current_iff c s.job).1 current, next_checkpoint-is_ok c s.job valid)
