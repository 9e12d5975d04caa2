-- ===== src/DurableJobs/Histories.antt =====
-- What holds of a durable job over every history of recoveries, lease takeovers and late results.
use ai_backend_engineer_hand.Prelude.{
  ℕ, String, ◌≤◌, ◌≡◌, refl, ◌∙◌, ◌⊎◌, inl, inr, true, ok, is_in, string_eq, arith, Sha256,
}
use ai_backend_engineer_hand.AgentStateMachine.Types.{is_terminal}
use ai_backend_engineer_hand.DurableJobs.Types.{applied, duplicate_replay}
use ai_backend_engineer_hand.DurableJobs.Records.{
  RecoveryOperation, DurableAgentJobRecord, RecoveryRequest, DurableRecoveryCandidate,
}
use ai_backend_engineer_hand.DurableJobs.Decide.{decide_durable_recovery}
use ai_backend_engineer_hand.DurableJobs.Store.{
  DurableJobStore, take_over_expired_lease, accept_result, apply,
}
use ai_backend_engineer_hand.DurableJobs.Recoveries.{decide-expected_terminal}
use ai_backend_engineer_hand.DurableJobs.Applied.{apply_frame, apply-applied, apply-replay}

module _ ⦃sha : Sha256⦄ where
  -- One call on the store. A recovery applies a candidate that was decided at some time, from some
  -- record of the job, perhaps long ago: `seen` need not be the job as it is.
  pub data Step : DurableJobStore → DurableJobStore → Type 0 where
    recover :
        (s : DurableJobStore) (seen : DurableAgentJobRecord) (o : RecoveryOperation)
        (q : RecoveryRequest)
        → Step s (apply (decide_durable_recovery seen o q) s).1
    take_over :
        (s : DurableJobStore) (worker : String) (now : ℕ)
        → Step s (take_over_expired_lease worker now s).1
    report :
        (s : DurableJobStore) (worker : String) (fence : ℕ) (evidence : String)
        → Step s (accept_result worker fence evidence s).1

  pub data Reaches (s : DurableJobStore) : DurableJobStore → Type 0 where
    here : Reaches s s
    next : {t u : DurableJobStore} → Reaches s t → Step t u → Reaches s u

  pub apply-cases :
      (c : DurableRecoveryCandidate) (s : DurableJobStore)
      → ((apply c s).0 ≡ ok applied) ⊎ ((apply c s).1 ≡ s)
  apply-cases c s = ground (arith, apply_frame c s)

  -- The checkpoint is the job's: its state and version, and a fence that the job has not gone back on.
  pub record IsMirrored (s : DurableJobStore) : Type 0 where
    pub state : s.job.current_checkpoint.authoritative_state ≡ s.job.state
    pub state_version : s.job.current_checkpoint.state_version ≡ s.job.state_version
    pub fence_token : s.job.current_checkpoint.fence_token ≤ s.job.fence_token

  pub Step-IsMirrored : {s t : DurableJobStore} → Step s t → IsMirrored s → IsMirrored t
  unfolding take_over_expired_lease accept_result
  Step-IsMirrored (recover s seen o q) h =
      let c = decide_durable_recovery seen o q in
      elim (apply-cases c s) [ inl e ↦ ground (arith, apply-applied c s e) | inr same ↦ rw same h ]
  Step-IsMirrored (take_over s worker now) h = ground arith
  Step-IsMirrored (report s worker fence evidence) h = ground arith

  -- If the current checkpoint has the job's state and state version and no later fence, it does so
  -- after any history.
  Reaches-IsMirrored : {s t : DurableJobStore} → Reaches s t → IsMirrored s → IsMirrored t
  Reaches-IsMirrored here h = h
  Reaches-IsMirrored (next r st) h = Step-IsMirrored st (Reaches-IsMirrored r h)

  Step-fence_token : {s t : DurableJobStore} → Step s t → s.job.fence_token ≤ t.job.fence_token
  unfolding take_over_expired_lease accept_result
  Step-fence_token (recover s seen o q) =
      let c = decide_durable_recovery seen o q in
      elim (apply-cases c s) [
        | inl e ↦ ground (arith, apply-applied c s e)
        | inr same ↦ rw same (omega arith)
      ]
  Step-fence_token (take_over s worker now) = ground arith
  Step-fence_token (report s worker fence evidence) = ground arith

  -- The fence never falls.
  pub Reaches-fence_token :
      {s t : DurableJobStore} → Reaches s t → s.job.fence_token ≤ t.job.fence_token
  Reaches-fence_token here = omega arith
  Reaches-fence_token (next r st) = omega (arith, Reaches-fence_token r, Step-fence_token st)

  Step-terminal :
      {s t : DurableJobStore}
      → Step s t
      → is_terminal s.job.state ≡ true
      → t.job.state ≡ s.job.state
  unfolding take_over_expired_lease accept_result
  Step-terminal (recover s seen o q) h =
      let c = decide_durable_recovery seen o q in
      elim (apply-cases c s) [
        | inl e ↦ ground (arith, apply-applied c s e, decide-expected_terminal seen o q)
        | inr same ↦ rw same refl
      ]
  Step-terminal (take_over s worker now) h = ground arith
  Step-terminal (report s worker fence evidence) h = refl

  -- A terminal job is never reopened: no history of recoveries, each decided from any record of the
  -- job however stale, of lease takeovers and of late results changes its state.
  pub Reaches-terminal :
      {s t : DurableJobStore}
      → Reaches s t
      → is_terminal s.job.state ≡ true
      → t.job.state ≡ s.job.state
  Reaches-terminal here h = refl
  Reaches-terminal (next r st) h =
      let kept = Reaches-terminal r h in Step-terminal st (rw kept h) ∙ kept

  Step-keeps_id :
      (id : String) {s t : DurableJobStore}
      → Step s t
      → is_in id s.applied_recovery_ids ≡ true
      → is_in id t.applied_recovery_ids ≡ true
  unfolding take_over_expired_lease accept_result
  Step-keeps_id id (recover s seen o q) h =
      let c = decide_durable_recovery seen o q in
      elim (apply-cases c s) [
        | inl e ↦ ground (arith, (apply-applied c s e).5)
        | inr same ↦ rw same h
      ]
  Step-keeps_id id (take_over s worker now) h = ground arith
  Step-keeps_id id (report s worker fence evidence) h = h

  Reaches-keeps_id :
      (id : String) {s t : DurableJobStore}
      → Reaches s t
      → is_in id s.applied_recovery_ids ≡ true
      → is_in id t.applied_recovery_ids ≡ true
  Reaches-keeps_id id here h = h
  Reaches-keeps_id id (next r st) h = Step-keeps_id id st (Reaches-keeps_id id r h)

  -- A recovery is applied at most once: after it has been, applying it again after any history is
  -- reported as a replay and changes nothing.
  pub applied_once :
      (c : DurableRecoveryCandidate) (s : DurableJobStore) {t : DurableJobStore}
      → (apply c s).0 ≡ ok applied
      → Reaches (apply c s).1 t
      → apply c t ≡ (ok duplicate_replay, t)
  applied_once c s {t} e r =
      apply-replay c t (Reaches-keeps_id c.recovery_id r (ground (arith, (apply-applied c s e).5)))
