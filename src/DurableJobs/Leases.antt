-- ===== src/DurableJobs/Leases.antt =====
-- Leases of a durable job: takeover, and what a worker that lost its lease may still do.
use ai_backend_engineer_hand.Prelude.{
  ℕ, String, ◌+◌, ◌≤◌, ◌≡◌, ◌≢◌, ◌↔◌, inl, inr, true, false, none, some, arith, Sha256,
}
use ai_backend_engineer_hand.AgentStateMachine.Types.{is_terminal}
use ai_backend_engineer_hand.DurableJobs.Decide.{decide_durable_recovery}
use ai_backend_engineer_hand.DurableJobs.Store.{
  DurableJobStore, lease_is_open, take_over_expired_lease, accept_result,
}
use ai_backend_engineer_hand.DurableJobs.Applied.{apply-applied}
use ai_backend_engineer_hand.DurableJobs.Histories.{
  Step, recover, take_over, report, Reaches, here, next, Reaches-fence_token, apply-cases,
}

-- A takeover succeeds exactly on a live job whose lease has an expiry that has passed.
pub take_over-succeeds_iff :
    (worker : String) (now : ℕ) (s : DurableJobStore)
    → ((take_over_expired_lease worker now s).0 ≡ true) ↔ (
        (is_terminal s.job.state ≡ false)
        × ((expiry : ℕ) × (s.job.lease_expiry_epoch_ms ≡ some expiry) × (expiry ≤ now)))
unfolding take_over_expired_lease lease_is_open
take_over-succeeds_iff worker now s = ground arith

take_over_facts :
    (worker : String) (now : ℕ) (s : DurableJobStore)
    → (take_over_expired_lease worker now s).0 ≡ true
    → let j = (take_over_expired_lease worker now s).1.job in
      (j.lease_owner ≡ some worker)
      × (j.fence_token ≡ s.job.fence_token + 1)
      × (j.lease_generation ≡ s.job.lease_generation + 1)
      × (j.lease_expiry_epoch_ms ≡ none)
      × (j.state ≡ s.job.state)
unfolding take_over_expired_lease
take_over_facts worker now s h = ground arith

-- A result is accepted exactly from the owner of the lease, under the job's fence, on a live job; its
-- evidence is kept either way, and nothing else changes.
pub accept_result_iff :
    (worker : String) (fence : ℕ) (evidence : String) (s : DurableJobStore)
    → let (accepted, s') = accept_result worker fence evidence s in
      ((accepted ≡ true) ↔ (
        (s.job.lease_owner ≡ some worker)
        × (s.job.fence_token ≡ fence)
        × (is_terminal s.job.state ≡ false)))
      × (s'.job.state ≡ s.job.state)
      × (s'.job.fence_token ≡ s.job.fence_token)
      × (s'.job.reservations ≡ s.job.reservations)
      × (s'.job.outbox_intents ≡ s.job.outbox_intents)
      × (s'.job.current_checkpoint ≡ s.job.current_checkpoint)
      × (s'.applied_recovery_ids ≡ s.applied_recovery_ids)
unfolding accept_result
accept_result_iff worker fence evidence s = ground arith

module _ ⦃sha : Sha256⦄ where
  -- Fencing: after a takeover no result under the fence of before, or an earlier one, is accepted
  -- from any worker after any history.
  pub late_result_refused :
      (worker late : String) (now fence : ℕ) (evidence : String) (s : DurableJobStore)
      {t : DurableJobStore}
      → (take_over_expired_lease worker now s).0 ≡ true
      → Reaches (take_over_expired_lease worker now s).1 t
      → fence ≤ s.job.fence_token
      → (accept_result late fence evidence t).0 ≢ true
  late_result_refused worker late now fence evidence s {t} taken r old e = omega (
    arith,
    take_over_facts worker now s taken,
    Reaches-fence_token r,
    ((accept_result_iff late fence evidence t).0.0 e).1,
  )

  Step-no_expiry :
      {s t : DurableJobStore}
      → Step s t
      → s.job.lease_expiry_epoch_ms ≡ none
      → t.job.lease_expiry_epoch_ms ≡ none
  unfolding take_over_expired_lease accept_result
  Step-no_expiry (recover s seen o q) h =
      let c = decide_durable_recovery seen o q in
      elim (apply-cases c s) [ inl e ↦ ground (arith, apply-applied c s e) | inr same ↦ rw same h ]
  Step-no_expiry (take_over s worker now) h = ground arith
  Step-no_expiry (report s worker fence evidence) h = h

  Reaches-no_expiry :
      {s t : DurableJobStore}
      → Reaches s t
      → s.job.lease_expiry_epoch_ms ≡ none
      → t.job.lease_expiry_epoch_ms ≡ none
  Reaches-no_expiry here h = h
  Reaches-no_expiry (next r st) h = Step-no_expiry st (Reaches-no_expiry r h)

  -- After a takeover no worker takes the job over again, at any time and after any history of
  -- recoveries, takeovers and late results.
  pub take_over-is_last :
      (worker other : String) (now later : ℕ) (s : DurableJobStore) {t : DurableJobStore}
      → (take_over_expired_lease worker now s).0 ≡ true
      → Reaches (take_over_expired_lease worker now s).1 t
      → (take_over_expired_lease other later t).0 ≢ true
  take_over-is_last worker other now later s {t} taken r e = ground (
    arith,
    take_over_facts worker now s taken,
    Reaches-no_expiry r,
    (take_over-succeeds_iff other later t).0 e,
  )
