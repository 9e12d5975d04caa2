-- ===== src/DurableJobs/Recoveries.antt =====
-- What `decide_durable_recovery` promises: an unknown outcome is never retried or released, a
-- terminal job stays in its state, and a retry has every proof that it needs.
use ai_backend_engineer_hand.Prelude.{◌<◌, ◌≡◌, ◌≢◌, ◌↔◌, ◌⊎◌, inl, inr, true, false, none, arith}
use ai_backend_engineer_hand.AgentStateMachine.Types.{is_terminal}
use ai_backend_engineer_hand.DurableJobs.Types.{
  definitely_not_dispatched, outcome_unknown, retry, reconcile, escalate, reject_stale, no_change,
  keep_held, release, settle_verified,
}
use ai_backend_engineer_hand.DurableJobs.Records.{
  RecoveryOperation, automatic_recovery_available, DurableAgentJobRecord, RecoveryRequest,
}
use ai_backend_engineer_hand.DurableJobs.Decide.{
  candidate, keep_or_pending, decide_live, decide_current, names_current, decide_durable_recovery,
}

-- The request was computed from the job as it is.
pub record IsFresh (r : DurableAgentJobRecord) (q : RecoveryRequest) : Type 0 where
  pub tenant_id : q.tenant_id ≡ r.tenant_id
  pub job_id : q.job_id ≡ r.job_id
  pub step_id : q.step_id ≡ r.current_step_id
  pub attempt_id : q.attempt_id ≡ r.current_attempt_id
  pub checkpoint_id : q.checkpoint_id ≡ r.current_checkpoint.checkpoint_id
  pub expected_state : q.expected_state ≡ r.state
  pub expected_state_version : q.expected_state_version ≡ r.state_version
  pub expected_fence_token : q.expected_fence_token ≡ r.fence_token

-- What a retry needs.
pub record MayRetry (r : DurableAgentJobRecord) (o : RecoveryOperation) (q : RecoveryRequest)
    : Type 0 where
  pub fresh : IsFresh r q
  pub attempts_left : o.attempts_used < o.attempt_limit
  pub in_time : q.now_epoch_ms < o.deadline_epoch_ms
  pub not_dispatched : q.external_certainty ≡ definitely_not_dispatched
  pub no_repair : q.internal_repair_required ≡ false
  pub wanted : q.verified_effect_unwanted ≡ false
  pub no_usage : q.verified_usage_units ≡ none
  pub live : is_terminal r.state ≡ false
  pub binding_allowed : q.original_binding_currently_allowed ≡ true
  pub authorized : q.current_authorization ≡ true

decide_live-retry :
    (r : DurableAgentJobRecord) (q : RecoveryRequest)
    → ((decide_live r q).decision ≡ retry) ↔ (
        (q.external_certainty ≡ definitely_not_dispatched)
        × (q.original_binding_currently_allowed ≡ true)
        × (q.current_authorization ≡ true))
unfolding decide_live candidate
decide_live-retry r q = ground arith

decide_current-retry :
    (r : DurableAgentJobRecord) (o : RecoveryOperation) (q : RecoveryRequest)
    → ((decide_current r o q).decision ≡ retry) ↔ (
        (o.attempts_used < o.attempt_limit)
        × (q.now_epoch_ms < o.deadline_epoch_ms)
        × (q.internal_repair_required ≡ false)
        × (q.verified_effect_unwanted ≡ false)
        × (q.verified_usage_units ≡ none)
        × (is_terminal r.state ≡ false)
        × ((decide_live r q).decision ≡ retry)
        × (q.external_certainty ≢ outcome_unknown))
unfolding decide_current candidate automatic_recovery_available
decide_current-retry r o q = ground arith

IsFresh-of_test :
    (r : DurableAgentJobRecord) (o : RecoveryOperation) (q : RecoveryRequest)
    → (IsFresh r q × (decide_durable_recovery r o q ≡ decide_current r o q))
      ⊎ ((IsFresh r q → ⊥)
          × ((decide_durable_recovery r o q).decision ≡ reject_stale)
          × ((decide_durable_recovery r o q).reservation_action ≡ no_change)
          × ((decide_durable_recovery r o q).next_state ≡ r.state))
unfolding decide_durable_recovery names_current candidate
IsFresh-of_test r o q = ground arith

-- A retry is decided exactly for a fresh request, in time and within the attempts, of a live job
-- that needs no repair, no compensation and no settlement, whose effect is proven not dispatched,
-- and which is authorized on an allowed binding.
pub decide-retry_iff :
    (r : DurableAgentJobRecord) (o : RecoveryOperation) (q : RecoveryRequest)
    → ((decide_durable_recovery r o q).decision ≡ retry) ↔ MayRetry r o q
decide-retry_iff r o q = elim (IsFresh-of_test r o q) [
  | inl ok ↦ rw ok.1 (ground (arith, decide_current-retry r o q, decide_live-retry r q))
  | inr stale ↦ ground (arith, stale.1, stale.0)
]

decide_current-unknown :
    (r : DurableAgentJobRecord) (o : RecoveryOperation) (q : RecoveryRequest)
    → q.external_certainty ≡ outcome_unknown
    → let c = decide_current r o q in
      (c.reservation_action ≡ keep_held) × ((c.decision ≡ reconcile) ⊎ (c.decision ≡ escalate))
unfolding decide_current candidate
decide_current-unknown r o q h = ground arith

-- While the outcome of an effect is unknown, the reservations are held or not changed, the request
-- is reconciled, escalated or rejected as stale, and a fresh one keeps them held.
decide-unknown_held :
    (r : DurableAgentJobRecord) (o : RecoveryOperation) (q : RecoveryRequest)
    → q.external_certainty ≡ outcome_unknown
    → let c = decide_durable_recovery r o q in
      ((c.reservation_action ≡ keep_held) ⊎ (c.reservation_action ≡ no_change))
      × ((c.decision ≡ reconcile) ⊎ (c.decision ≡ escalate) ⊎ (c.decision ≡ reject_stale))
      × (IsFresh r q → c.reservation_action ≡ keep_held)
decide-unknown_held r o q h = elim (IsFresh-of_test r o q) [
  | inl ok ↦ rw ok.1 (ground (arith, decide_current-unknown r o q h))
  | inr stale ↦ ground (arith, stale.0, stale.1, stale.2)
]

decide_live-release :
    (r : DurableAgentJobRecord) (q : RecoveryRequest)
    → let c = decide_live r q in
      (c.reservation_action ≢ settle_verified)
      × (c.reservation_action ≡ release
          → (q.original_binding_currently_allowed ≡ false)
            ⊎ (q.external_certainty ≡ definitely_not_dispatched))
unfolding decide_live candidate
decide_live-release r q = ground arith

decide_current-release :
    (r : DurableAgentJobRecord) (o : RecoveryOperation) (q : RecoveryRequest)
    → (decide_current r o q).reservation_action ≡ release
    → (is_terminal r.state ≡ false)
      × (q.external_certainty ≢ outcome_unknown)
      × ((q.original_binding_currently_allowed ≡ false)
          ⊎ (q.external_certainty ≡ definitely_not_dispatched))
unfolding decide_current candidate
decide_current-release r o q h = ground (arith, decide_live-release r q)

-- Reserved units are released only for a fresh request of a live job whose outcome is not unknown,
-- and whose effect is proven not dispatched or whose binding is no longer allowed.
decide-release_needs :
    (r : DurableAgentJobRecord) (o : RecoveryOperation) (q : RecoveryRequest)
    → (decide_durable_recovery r o q).reservation_action ≡ release
    → IsFresh r q
      × (is_terminal r.state ≡ false)
      × (q.external_certainty ≢ outcome_unknown)
      × ((q.original_binding_currently_allowed ≡ false)
          ⊎ (q.external_certainty ≡ definitely_not_dispatched))
decide-release_needs r o q h = elim (IsFresh-of_test r o q) [
  | inl ok ↦ ground (arith, ok.0, ok.1, decide_current-release r o q)
  | inr stale ↦ ground (arith, stale.2)
]

decide_current-terminal :
    (r : DurableAgentJobRecord) (o : RecoveryOperation) (q : RecoveryRequest)
    → is_terminal r.state ≡ true
    → (decide_current r o q).next_state ≡ r.state
unfolding decide_current candidate keep_or_pending
decide_current-terminal r o q h = ground arith

-- Whatever is decided for a terminal job, its state stays.
pub decide-terminal :
    (r : DurableAgentJobRecord) (o : RecoveryOperation) (q : RecoveryRequest)
    → is_terminal r.state ≡ true
    → (decide_durable_recovery r o q).next_state ≡ r.state
decide-terminal r o q h = elim (IsFresh-of_test r o q) [
  | inl ok ↦ rw ok.1 (decide_current-terminal r o q h)
  | inr stale ↦ stale.3
]

decide_current-expected :
    (r : DurableAgentJobRecord) (o : RecoveryOperation) (q : RecoveryRequest)
    → (decide_current r o q).expected_state ≡ q.expected_state
unfolding decide_current decide_live candidate
decide_current-expected r o q = ground arith

-- A candidate that changes anything expects the state of the record that it was decided from; in a
-- terminal one it proposes the very state that it expects.
pub decide-expected_terminal :
    (r : DurableAgentJobRecord) (o : RecoveryOperation) (q : RecoveryRequest)
    → let c = decide_durable_recovery r o q in
      c.decision ≢ reject_stale
      → is_terminal c.expected_state ≡ true
      → c.next_state ≡ c.expected_state
decide-expected_terminal r o q n t = elim (IsFresh-of_test r o q) [
  | inl ok ↦
      ground (arith, ok.0, ok.1, decide_current-expected r o q, decide_current-terminal r o q)
  | inr stale ↦ absurd (n stale.1)
]
