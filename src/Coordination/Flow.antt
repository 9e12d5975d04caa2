-- ===== src/Coordination/Flow.antt =====
-- A handoff from its acceptance to its verified result
-- (projects/ai-agent/src/multi_agent_coordination.py).
use ai_backend_engineer_hand.Prelude.{
  ℕ, String, ◌+◌, ◌≡◌, refl, ◌<◌, true, false, none, some, List, [], ◌∷◌, ok, string_eq, nat_eq,
  option_eq, is_in, sym, lookup, lookup-insert_self, Sha256, arith,
}
use ai_backend_engineer_hand.ServerLifecycle.Sets.{is_in-sorted}
use ai_backend_engineer_hand.Coordination.Types.{
  handoff_state_eq, accepted, claimed, dispatched, dispatch_status_eq, allowed, verified,
  newly_accepted, newly_claimed, SourceVersion, same_versions, source_version_eq, HandoffCandidate,
  Json, CurrentCoordinationFacts, HandoffRecord, ChildResultCandidate, CoordinationStore,
}
use ai_backend_engineer_hand.Coordination.Store.{accept_handoff, new_record, unique}
use ai_backend_engineer_hand.Coordination.Ownership.{
  with_record, unclaimed, claim_handoff, lease_ended, DispatchRequest, authorize_provider_dispatch,
  record_provider_dispatch,
}
use ai_backend_engineer_hand.Coordination.Outcomes.{verification_status, is_verified, verify_result}
use ai_backend_engineer_hand.Coordination.Acceptance.{accept_handoff-accepts_iff}

is_in-unique : (a : String) (xs : List String) → is_in a (unique xs) ≡ is_in a xs
unfolding unique
is_in-unique a [] = refl
is_in-unique a (x ∷ xs) = ground (arith, is_in-unique a xs)

same_versions_refl : (xs : List SourceVersion) → same_versions xs xs ≡ true
unfolding same_versions
same_versions_refl [] = refl
same_versions_refl (x ∷ xs) = ground (arith, same_versions_refl xs)

-- The record after its claim, its dispatch and its result.
abbrev claimed_by : String → ℕ → HandoffRecord → HandoffRecord
claimed_by worker ends r = record r {
  state = claimed;
  state_version = r.state_version + 1;
  claim_owner = some worker;
  lease_expires_at = some ends;
  fence_token = r.fence_token + 1;
}

abbrev dispatched_as : String → HandoffRecord → HandoffRecord
dispatched_as operation r = record r {
  state = dispatched;
  state_version = r.state_version + 1;
  operation_id = some operation;
}

claim_writes :
    (id worker : String) (now duration : ℕ) (s : CoordinationStore) (r : HandoffRecord)
    → lookup id s.records ≡ some r
    → r.state ≡ accepted
    → r.claim_owner ≡ none
    → 0 < duration
    → claim_handoff id worker now duration s ≡ (
      ok (unclaimed newly_claimed id (some worker) (some (r.fence_token + 1))),
      with_record id (claimed_by worker (now + duration) r) s,
    )
unfolding claim_handoff
claim_writes id worker now duration s r e a o d = ground arith

dispatch_writes :
    (id operation : String) (q : DispatchRequest) (s : CoordinationStore) (r : HandoffRecord)
    (ends : ℕ)
    → lookup id s.records ≡ some r
    → r.state ≡ claimed
    → r.fence_token ≡ q.fence_token
    → r.claim_owner ≡ some q.worker_id
    → r.lease_expires_at ≡ some ends
    → q.now < ends
    → is_in q.required_capability r.grant.capabilities ≡ true
    → is_in q.required_capability q.current_allowed_capabilities ≡ true
    → record_provider_dispatch id q operation s
      ≡ (allowed, with_record id (dispatched_as operation r) s)
unfolding record_provider_dispatch authorize_provider_dispatch lease_ended
dispatch_writes id operation q s r ends e c f o l n g a = ground arith

verify_applies :
    (c : ChildResultCandidate) (versions : List SourceVersion) (s : CoordinationStore)
    (r : HandoffRecord)
    → lookup c.handoff_id s.records ≡ some r
    → s.parent_terminal ≡ false
    → c.child_attempt_id ≡ r.child_attempt_id
    → c.output_contract ≡ r.candidate.output_contract
    → c.source_versions ≡ r.candidate.context_source_versions
    → versions ≡ c.source_versions
    → c.fence_token ≡ r.fence_token
    → r.claim_owner ≡ some c.worker_id
    → r.state ≡ dispatched
    → (verify_result c versions s).0 ≡ (verified, true)
unfolding verify_result verification_status is_verified
verify_applies c versions s r e t a k v w f o d =
    ground (arith, same_versions_refl c.source_versions)

module _ ⦃json : Json⦄ ⦃sha : Sha256⦄ where
  -- An accepted handoff can complete: if its parent has not ended, a worker that claims it,
  -- dispatches a requested capability that is still allowed within its lease under the fence 1, and
  -- returns a result for the child's attempt with its contract and source versions is allowed to
  -- dispatch, and its result is verified and applied.
  pub accepted_handoff_completes :
      (c : HandoffCandidate) (facts : CurrentCoordinationFacts) (now : ℕ) (s : CoordinationStore)
      (now₁ duration : ℕ) (q : DispatchRequest) (operation : String) (d : ChildResultCandidate)
      → (accept_handoff c facts now s).0.status ≡ newly_accepted
      → s.parent_terminal ≡ false
      → q.now < now₁ + duration
      → 0 < duration
      → q.fence_token ≡ 1
      → is_in q.required_capability c.requested_capabilities ≡ true
      → is_in q.required_capability q.current_allowed_capabilities ≡ true
      → d.handoff_id ≡ c.handoff_id
      → d.child_attempt_id ≡ (new_record c).child_attempt_id
      → d.worker_id ≡ q.worker_id
      → d.fence_token ≡ 1
      → d.output_contract ≡ c.output_contract
      → d.source_versions ≡ c.context_source_versions
      → let s₁ = (accept_handoff c facts now s).1 in
        let s₂ = (claim_handoff c.handoff_id q.worker_id now₁ duration s₁).1 in
        let (status, s₃) = record_provider_dispatch c.handoff_id q operation s₂ in
        (status ≡ allowed) × ((verify_result d c.context_source_versions s₃).0 ≡ (verified, true))
  unfolding new_record
  accepted_handoff_completes c facts now s now₁ duration q operation d a t n p f m l k i w g o v =
      let id = c.handoff_id in
      let r₀ = new_record c in
      let r₁ = claimed_by q.worker_id (now₁ + duration) r₀ in
      let r₂ = dispatched_as operation r₁ in
      let s₁ = with_record id r₀ s in
      let s₂ = with_record id r₁ s₁ in
      let s₃ = with_record id r₂ s₂ in
      let accepting : (accept_handoff c facts now s).1 ≡ s₁ =
        (accept_handoff-accepts_iff c facts now s).2 a in
      let claiming =
        claim_writes id q.worker_id now₁ duration s₁ r₀ (lookup-insert_self id r₀ s.records) refl
          refl p in
      let granted = is_in-unique q.required_capability c.requested_capabilities in
      let sorting = is_in-sorted q.required_capability (unique c.requested_capabilities) in
      let dispatching =
        dispatch_writes id operation q s₂ r₁ (now₁ + duration) (lookup-insert_self id r₁ s₁.records)
          refl (sym f) refl refl n (ground (arith, granted, sorting, m)) l in
      let verifying =
        verify_applies d c.context_source_versions s₃ r₂
          (ground (arith, k, lookup-insert_self id r₂ s₂.records)) t i o v (sym v) g
          (ground (arith, w)) refl in
      rw (accepting, claiming, dispatching) (refl, verifying)
