-- ===== src/Coordination/TakeOvers.antt =====
-- When a takeover of a handoff succeeds, and what its new owner may do
-- (projects/ai-agent/src/multi_agent_coordination.py).
use ai_backend_engineer_hand.Prelude.{
  ℕ, String, ◌+◌, ◌≡◌, ◌≢◌, ◌≤◌, ◌<◌, true, none, some, ok, inl, inr, ◌↔◌, ◌||◌, Bool-cases,
  Option-cases, ◌==◌, string_eq, nat_eq, option_eq, lookup, lookup-insert_self, ltb, is_in, arith,
}
use ai_backend_engineer_hand.Coordination.Types.{
  handoff_state_eq, claimed, allowed, newly_claimed, HandoffRecord, CoordinationStore,
}
use ai_backend_engineer_hand.Coordination.Ownership.{
  unclaimed, lease_runs, lease_ended, take_over_lease, DispatchRequest, authorize_provider_dispatch,
}

-- For a handoff on record and a positive duration, a takeover reports the claim exactly if the
-- handoff has an owner and a lease that ends at the given time or before, whatever its state, and
-- otherwise changes nothing. After the claim, a dispatch is authorized exactly for the new owner
-- under the next fence, before the new lease ends, with a granted and currently allowed capability,
-- if the handoff's state was CLAIMED: one that was cancelled or dispatched is claimed in vain.
pub take_over-claims_iff :
    (id worker : String) (now duration : ℕ) (s : CoordinationStore) (r : HandoffRecord)
    → lookup id s.records ≡ some r
    → 0 < duration
    → let (answer, s') = take_over_lease id worker now duration s in
      let claim = ok (unclaimed newly_claimed id (some worker) (some (r.fence_token + 1))) in
      ((answer ≡ claim)
        ↔ ((r.claim_owner ≢ none) × ((ends : ℕ) × (r.lease_expires_at ≡ some ends) × (ends ≤ now))))
      × ((answer ≢ claim) → s' ≡ s)
      × ((answer ≡ claim)
          → (q : DispatchRequest)
          → (authorize_provider_dispatch id q s' ≡ allowed) ↔ (
              (r.state ≡ claimed)
              × (q.worker_id ≡ worker)
              × (q.fence_token ≡ r.fence_token + 1)
              × (q.now < now + duration)
              × (is_in q.required_capability r.grant.capabilities ≡ true)
              × (is_in q.required_capability q.current_allowed_capabilities ≡ true)))
unfolding take_over_lease lease_runs authorize_provider_dispatch lease_ended
take_over-claims_iff id worker now duration s r e d =
    let r' : HandoffRecord = record r {
      state_version = r.state_version + 1;
      claim_owner = some worker;
      lease_expires_at = some (now + duration);
      fence_token = r.fence_token + 1;
    } in
    let self = lookup-insert_self id r' s.records in
    elim (Option-cases r.lease_expires_at) [
      | inl free ↦ (ground arith, ground arith, λ h q. ground arith)
      | inr (ends, l) ↦ elim (Bool-cases (r.claim_owner == none || ltb now ends)) [
        | inl c ↦ (ground arith, ground arith, λ h q. ground arith)
        | inr c ↦ (ground arith, ground arith, λ h q. ground (arith, self))
      ]
    ]
