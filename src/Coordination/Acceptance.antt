-- ===== src/Coordination/Acceptance.antt =====
-- Which handoffs are accepted (`accept` of projects/ai-agent/src/multi_agent_coordination.py).
use ai_backend_engineer_hand.Prelude.{
  ℕ, String, ◌+◌, ◌≡◌, refl, ◌≢◌, ◌↔◌, ◌≤◌, ◌<◌, true, none, some, List, [], ◌∷◌, inl, inr,
  Option-cases, string_eq, is_in, length, lookup, Sha256, arith,
}
use ai_backend_engineer_hand.Coordination.Types.{
  newly_accepted, HandoffCandidate, Json, CurrentCoordinationFacts, CoordinationStore,
}
use ai_backend_engineer_hand.Coordination.Store.{
  accept_handoff, new_record, refusal_of, is_subset, active_count, allocated_tokens,
}
use ai_backend_engineer_hand.Coordination.Ownership.{with_record}

is_subset-to :
    (xs ys : List String) (a : String)
    → is_subset xs ys ≡ true
    → is_in a xs ≡ true
    → is_in a ys ≡ true
unfolding is_subset
is_subset-to [] ys a h m = cc
is_subset-to (x ∷ xs) ys a h m = ground (arith, is_subset-to xs ys a)

is_subset-of :
    (xs ys : List String)
    → ((a : String) → is_in a xs ≡ true → is_in a ys ≡ true)
    → is_subset xs ys ≡ true
unfolding is_subset
is_subset-of [] ys h = refl
is_subset-of (x ∷ xs) ys h = ground (arith, h x, is_subset-of xs ys λ a m. h a (ground (arith, m)))

module _ ⦃json : Json⦄ ⦃sha : Sha256⦄ where
  -- What a new handoff needs.
  pub record MayAccept (c : HandoffCandidate) (facts : CurrentCoordinationFacts) (now : ℕ)
      (s : CoordinationStore) : Type 0 where
    pub fresh : lookup c.handoff_id s.records ≡ none
    pub tenant : c.tenant_id ≡ facts.tenant_id
    pub policy : c.policy_version ≡ facts.current_policy_version
    pub in_time : now < c.deadline
    pub depth : c.delegation_depth ≤ facts.max_delegation_depth
    pub fan_out : length s.records < facts.max_fan_out
    pub concurrency : active_count s.records < facts.concurrency_limit
    pub contract : is_in c.output_contract facts.accepted_output_contracts ≡ true
    pub context : is_in c.context_manifest_id facts.readable_context_manifests ≡ true
    pub delegatable :
        (a : String)
        → is_in a c.requested_capabilities ≡ true
        → is_in a facts.delegatable_capabilities ≡ true
    pub allowed_now :
        (a : String)
        → is_in a c.requested_capabilities ≡ true
        → is_in a facts.currently_allowed_capabilities ≡ true
    pub funded : allocated_tokens s.records + c.requested_tokens ≤ s.parent_token_reservation

  refusal_of-ne_accepted :
      (c : HandoffCandidate) (facts : CurrentCoordinationFacts) (now : ℕ) (s : CoordinationStore)
      → refusal_of c facts now s ≢ some newly_accepted
  unfolding refusal_of
  refusal_of-ne_accepted c facts now s h = ground arith

  accepted_parts :
      (c : HandoffCandidate) (facts : CurrentCoordinationFacts) (now : ℕ) (s : CoordinationStore)
      → ((accept_handoff c facts now s).0.status ≡ newly_accepted
          ↔ (lookup c.handoff_id s.records ≡ none) × (refusal_of c facts now s ≡ none))
        × ((accept_handoff c facts now s).0.status ≢ newly_accepted
            → (accept_handoff c facts now s).1 ≡ s)
        × ((accept_handoff c facts now s).0.status ≡ newly_accepted
            → (accept_handoff c facts now s).1 ≡ with_record c.handoff_id (new_record c) s)
  unfolding accept_handoff
  accepted_parts c facts now s = elim (Option-cases (lookup c.handoff_id s.records)) [
    | inr (r, e) ↦ ground arith
    | inl e ↦ elim (Option-cases (refusal_of c facts now s)) [
      | inl f ↦ ground arith
      | inr (reason, f) ↦ ground (arith, refusal_of-ne_accepted c facts now s)
    ]
  ]

  admitted_facts :
      (c : HandoffCandidate) (facts : CurrentCoordinationFacts) (now : ℕ) (s : CoordinationStore)
      → lookup c.handoff_id s.records ≡ none
      → refusal_of c facts now s ≡ none
      → MayAccept c facts now s
  unfolding refusal_of
  admitted_facts c facts now s e h = record {
    fresh = e;
    tenant = ground arith;
    policy = ground arith;
    in_time = ground arith;
    depth = ground arith;
    fan_out = ground arith;
    concurrency = ground arith;
    contract = ground arith;
    context = ground arith;
    delegatable = λ a m.
        is_subset-to c.requested_capabilities facts.delegatable_capabilities a (ground (arith, h))
          m;
    allowed_now = λ a m.
        is_subset-to c.requested_capabilities facts.currently_allowed_capabilities a
          (ground (arith, h)) m;
    funded = ground arith;
  }

  not_refused :
      (c : HandoffCandidate) (facts : CurrentCoordinationFacts) (now : ℕ) (s : CoordinationStore)
      → MayAccept c facts now s
      → refusal_of c facts now s ≡ none
  unfolding refusal_of
  not_refused c facts now s m = ground (
    arith,
    m.tenant,
    m.policy,
    m.in_time,
    m.depth,
    m.fan_out,
    m.concurrency,
    m.contract,
    m.context,
    m.funded,
    is_subset-of c.requested_capabilities facts.delegatable_capabilities m.delegatable,
    is_subset-of c.requested_capabilities facts.currently_allowed_capabilities m.allowed_now,
  )

  -- A handoff is newly accepted exactly if it is new, in scope, under the current policy, in time,
  -- within depth, fan-out and concurrency, its output contract and context are accepted, each
  -- requested capability is delegatable and currently allowed, and its tokens fit the reservation.
  -- Then its record alone is added; otherwise the store is unchanged.
  pub accept_handoff-accepts_iff :
      (c : HandoffCandidate) (facts : CurrentCoordinationFacts) (now : ℕ) (s : CoordinationStore)
      → let (d, s') = accept_handoff c facts now s in
        ((d.status ≡ newly_accepted) ↔ MayAccept c facts now s)
        × ((d.status ≢ newly_accepted) → s' ≡ s)
        × ((d.status ≡ newly_accepted) → s' ≡ with_record c.handoff_id (new_record c) s)
  accept_handoff-accepts_iff c facts now s =
      let (made, refused, written) = accepted_parts c facts now s in
      (
        (
          λ h. let (e, f) = made.0 h in admitted_facts c facts now s e f,
          λ m. made.1 (m.fresh, not_refused c facts now s m),
        ),
        refused,
        written,
      )
