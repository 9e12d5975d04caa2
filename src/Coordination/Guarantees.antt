-- ===== src/Coordination/Guarantees.antt =====
-- What the coordination promises over every sequence of calls
-- (projects/ai-agent/src/multi_agent_coordination.py).
use ai_backend_engineer_hand.Prelude.{
  ℕ, String, ◌+◌, ◌≡◌, refl, ◌≢◌, ◌≤◌, true, false, none, some, List, ok, inl, inr, Option-cases,
  string_eq, nat_eq, option_eq, lookup, lookup-insert_self, ap, ◌∙◌, ◌⊎◌, Sha256, arith,
}
use ai_backend_engineer_hand.Coordination.Types.{
  handoff_state_eq, claimed, dispatched, verified_completed, cancelled, dispatch_status_eq, allowed,
  newly_claimed, cancelled_before_dispatch, released, Json, HandoffRecord, ChildResultCandidate,
  SourceVersion, CoordinationStore, ClaimDecision,
}
use ai_backend_engineer_hand.Coordination.Store.{new_coordination, allocated_tokens}
use ai_backend_engineer_hand.Coordination.Ownership.{
  take_over_lease, DispatchRequest, authorize_provider_dispatch, record_provider_dispatch,
}
use ai_backend_engineer_hand.Coordination.Outcomes.{
  cancel_handoff, verification_status, is_verified, verify_result,
}
use ai_backend_engineer_hand.Coordination.Evolution.{
  progress, Evolves, Keeps, AllOwned, Follows, Follows-owned,
}
use ai_backend_engineer_hand.Coordination.Changes.{
  take_over-Follows, record_provider_dispatch-Follows, cancel_handoff-Follows,
  verify_result-Follows,
}
use ai_backend_engineer_hand.Coordination.Allocations.{IsFunded}
use ai_backend_engineer_hand.Coordination.Histories.{Reaches, Reaches-Follows, Reaches-IsFunded}

new_coordination-IsFunded :
    (parent : String) (reservation : ℕ) (s : CoordinationStore)
    → new_coordination parent reservation ≡ ok s
    → IsFunded s × AllOwned s
unfolding new_coordination IsFunded AllOwned allocated_tokens lookup
new_coordination-IsFunded parent reservation s h =
    (ground (arith, h), λ id r e. ground (arith, h, e))

-- What settles a request or a result.
unauthorized :
    (id : String) (q : DispatchRequest) (t : CoordinationStore) (r : HandoffRecord)
    → lookup id t.records ≡ some r
    → (r.state ≢ claimed) ⊎ (r.fence_token ≢ q.fence_token)
    → authorize_provider_dispatch id q t ≢ allowed
unfolding authorize_provider_dispatch
unauthorized id q t r e h a = ground (arith, h)

unverified :
    (c : ChildResultCandidate) (versions : List SourceVersion) (t : CoordinationStore)
    (r : HandoffRecord)
    → lookup c.handoff_id t.records ≡ some r
    → (r.state ≢ dispatched) ⊎ (r.fence_token ≢ c.fence_token)
    → (verify_result c versions t).0.1 ≡ false
unfolding verify_result verification_status is_verified
unverified c versions t r e h = ground (arith, h)

taken_over_fence :
    (id worker : String) (now duration : ℕ) (s : CoordinationStore) (r : HandoffRecord)
    (d : ClaimDecision)
    → lookup id s.records ≡ some r
    → (take_over_lease id worker now duration s).0 ≡ ok d
    → d.status ≡ newly_claimed
    → (r' : HandoffRecord) × (lookup id (take_over_lease id worker now duration s).1.records
        ≡ some r')
      × (r'.fence_token ≡ r.fence_token + 1)
unfolding take_over_lease
taken_over_fence id worker now duration s r d e h n =
    let r' = record r {
      state_version = r.state_version + 1;
      claim_owner = some worker;
      lease_expires_at = some (now + duration);
      fence_token = r.fence_token + 1;
    } in
    (r', ground (arith, lookup-insert_self id r' s.records), refl)

no_dispatch :
    (id : String) (q : DispatchRequest) (operation : String) (s : CoordinationStore)
    → lookup id s.records ≡ none
    → (record_provider_dispatch id q operation s).0 ≢ allowed
unfolding record_provider_dispatch authorize_provider_dispatch
no_dispatch id q operation s e h = ground arith

dispatched_record :
    (id : String) (q : DispatchRequest) (operation : String) (s : CoordinationStore)
    → (record_provider_dispatch id q operation s).0 ≡ allowed
    → (r' : HandoffRecord) × (lookup id (record_provider_dispatch id q operation s).1.records
        ≡ some r')
      × (r'.state ≡ dispatched)
unfolding record_provider_dispatch authorize_provider_dispatch
dispatched_record id q operation s h = elim (Option-cases (lookup id s.records)) [
  | inl e ↦ elim (no_dispatch id q operation s e h) [ ]
  | inr (r, e) ↦
      let r' = record r {
        state = dispatched;
        state_version = r.state_version + 1;
        operation_id = some operation;
      } in
      (r', ground (arith, lookup-insert_self id r' s.records, h, e), refl)
]

settled_record :
    (id : String) (s : CoordinationStore) (r : HandoffRecord)
    → lookup id s.records ≡ some r
    → (cancel_handoff id s).0.status ≡ cancelled_before_dispatch
    → (r' : HandoffRecord) × (lookup id (cancel_handoff id s).1.records ≡ some r')
      × (r'.state ≡ cancelled)
      × (r'.allocation.status ≡ released)
unfolding cancel_handoff
settled_record id s r e h =
    let r' = record r {
      state = cancelled;
      state_version = r.state_version + 1;
      cancellation_requested = true;
      allocation = record r.allocation { status = released };
    } in
    (r', ground (arith, lookup-insert_self id r' s.records, h, e), refl, refl)

verified_record :
    (c : ChildResultCandidate) (versions : List SourceVersion) (s : CoordinationStore)
    (r : HandoffRecord)
    → lookup c.handoff_id s.records ≡ some r
    → (verify_result c versions s).0.1 ≡ true
    → (r' : HandoffRecord) × (lookup c.handoff_id (verify_result c versions s).1.records ≡ some r')
      × (r'.state ≡ verified_completed)
unfolding verify_result
verified_record c versions s r e h =
    let r' = record r { state = verified_completed; state_version = r.state_version + 1 } in
    (r', ground (arith, lookup-insert_self c.handoff_id r' s.records, h, e), refl)

nothing_to_do :
    (id : String) (t : CoordinationStore) (r : HandoffRecord)
    → lookup id t.records ≡ some r
    → (r.state ≡ cancelled) ⊎ (r.state ≡ verified_completed)
    → (cancel_handoff id t).1 ≡ t
unfolding cancel_handoff
nothing_to_do id t r e h = ground (arith, h)

module _ ⦃json : Json⦄ ⦃sha : Sha256⦄ where
  -- From a new store, no sequence of calls lets the children hold more tokens than the parent has
  -- reserved.
  pub children_within_reservation :
      (parent : String) (reservation : ℕ) (s t : CoordinationStore)
      → new_coordination parent reservation ≡ ok s
      → Reaches s t
      → allocated_tokens t.records ≤ t.parent_token_reservation
  unfolding IsFunded
  children_within_reservation parent reservation s t h r =
      Reaches-IsFunded r (new_coordination-IsFunded parent reservation s h).0

  -- What a record of a reached store keeps.
  later :
      (id : String) (s t : CoordinationStore) (r : HandoffRecord)
      → AllOwned s
      → Reaches s t
      → lookup id s.records ≡ some r
      → (r' : HandoffRecord) × (lookup id t.records ≡ some r') × Evolves r r'
  unfolding Follows Keeps
  later id s t r o q e = (Reaches-Follows q o).0 id r e

  -- Fencing: once an expired lease is taken over, from a store in which a handoff without owner is
  -- accepted or cancelled, after every sequence of calls no dispatch under the fence of before or
  -- an older one is authorized and no result under it is applied, for any worker.
  pub taken_over-fences :
      (id worker : String) (now duration : ℕ) (s t : CoordinationStore) (r : HandoffRecord)
      (d : ClaimDecision)
      → AllOwned s
      → lookup id s.records ≡ some r
      → (take_over_lease id worker now duration s).0 ≡ ok d
      → d.status ≡ newly_claimed
      → Reaches (take_over_lease id worker now duration s).1 t
      → ((q : DispatchRequest)
          → q.fence_token ≤ r.fence_token
          → authorize_provider_dispatch id q t ≢ allowed)
        × ((c : ChildResultCandidate) (versions : List SourceVersion)
            → c.handoff_id ≡ id
            → c.fence_token ≤ r.fence_token
            → (verify_result c versions t).0.1 ≡ false)
  taken_over-fences id worker now duration s t r d o e h n q =
      let taken = (take_over_lease id worker now duration s).1 in
      let owned = Follows-owned s taken (take_over-Follows id worker now duration s o) in
      let (r₁, e₁, fence) = taken_over_fence id worker now duration s r d e h n in
      let (r₂, e₂, evolved) = later id taken t r₁ owned q e₁ in
      let above = evolved.fences in
      (
        λ p le. unauthorized id p t r₂ e₂ (inr (omega (arith, fence, above, le))),
        λ c versions same le.
            unverified c versions t r₂ (ap (λ k. lookup k t.records) same ∙ e₂)
              (inr (omega (arith, fence, above, le))),
      )

  -- At most one dispatch: once a dispatch of a handoff is recorded, from a store in which a handoff
  -- without owner is accepted or cancelled, no dispatch of it is authorized after any sequence of
  -- calls, for any worker and fence.
  pub dispatched-once :
      (id : String) (q : DispatchRequest) (operation : String) (s t : CoordinationStore)
      → AllOwned s
      → (record_provider_dispatch id q operation s).0 ≡ allowed
      → Reaches (record_provider_dispatch id q operation s).1 t
      → (p : DispatchRequest) → authorize_provider_dispatch id p t ≢ allowed
  unfolding progress
  dispatched-once id q operation s t o h reached p =
      let sent = (record_provider_dispatch id q operation s).1 in
      let owned = Follows-owned s sent (record_provider_dispatch-Follows id q operation s o) in
      let (r₁, e₁, state) = dispatched_record id q operation s h in
      let (r₂, e₂, evolved) = later id sent t r₁ owned reached e₁ in
      let forward = evolved.forward in
      unauthorized id p t r₂ e₂ (inl λ back. ground (arith, forward, state, back))

  -- A finished handoff.
  finished-final :
      (id : String) (s t : CoordinationStore) (r : HandoffRecord)
      → AllOwned s
      → lookup id s.records ≡ some r
      → (r.state ≡ cancelled) ⊎ (r.state ≡ verified_completed)
      → Reaches s t
      → ((q : DispatchRequest) → authorize_provider_dispatch id q t ≢ allowed)
        × ((c : ChildResultCandidate) (versions : List SourceVersion)
            → c.handoff_id ≡ id
            → (verify_result c versions t).0.1 ≡ false)
        × ((cancel_handoff id t).1 ≡ t)
  unfolding progress
  finished-final id s t r o e done reached =
      let (r', e', evolved) = later id s t r o reached e in
      let same = evolved.finished (ground (arith, done)) in
      (
        λ q. unauthorized id q t r' e' (inl λ back. ground (arith, done, same, back)),
        λ c versions key.
            unverified c versions t r' (ap (λ k. lookup k t.records) key ∙ e')
              (inl λ back. ground (arith, done, same, back)),
        nothing_to_do id t r' e' (ground (arith, done, same)),
      )

  -- Once a result is applied, from a store in which a handoff without owner is accepted or
  -- cancelled, after every sequence of calls no dispatch of its handoff is authorized, no other
  -- result of it is applied, and cancelling it changes nothing.
  pub verified-final :
      (c : ChildResultCandidate) (versions : List SourceVersion) (s t : CoordinationStore)
      (r : HandoffRecord)
      → AllOwned s
      → lookup c.handoff_id s.records ≡ some r
      → (verify_result c versions s).0.1 ≡ true
      → Reaches (verify_result c versions s).1 t
      → ((q : DispatchRequest) → authorize_provider_dispatch c.handoff_id q t ≢ allowed)
        × ((d : ChildResultCandidate) (other_versions : List SourceVersion)
            → d.handoff_id ≡ c.handoff_id
            → (verify_result d other_versions t).0.1 ≡ false)
        × ((cancel_handoff c.handoff_id t).1 ≡ t)
  verified-final c versions s t r o e h reached =
      let applied = (verify_result c versions s).1 in
      let owned = Follows-owned s applied (verify_result-Follows c versions s o) in
      let (r', e', state) = verified_record c versions s r e h in
      finished-final c.handoff_id applied t r' owned e' (inr state) reached

  -- cancel
  cancelled-final :
      (id : String) (s t : CoordinationStore) (r : HandoffRecord)
      → AllOwned s
      → lookup id s.records ≡ some r
      → (cancel_handoff id s).0.status ≡ cancelled_before_dispatch
      → Reaches (cancel_handoff id s).1 t
      → ((q : DispatchRequest) → authorize_provider_dispatch id q t ≢ allowed)
        × ((c : ChildResultCandidate) (versions : List SourceVersion)
            → c.handoff_id ≡ id
            → (verify_result c versions t).0.1 ≡ false)
        × ((cancel_handoff id t).1 ≡ t)
  cancelled-final id s t r o e h reached =
      let gone = (cancel_handoff id s).1 in
      let owned = Follows-owned s gone (cancel_handoff-Follows id s o) in
      let (r', e', state, freed) = settled_record id s r e h in
      finished-final id gone t r' owned e' (inl state) reached
