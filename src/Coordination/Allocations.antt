-- ===== src/Coordination/Allocations.antt =====
-- The parent's tokens (`allocated_tokens` of projects/ai-agent/src/multi_agent_coordination.py): what
-- the operations do to the sum.
use ai_backend_engineer_hand.Prelude.{
  ℕ, String, ◌+◌, ◌≡◌, ◌≤◌, true, none, some, List, [], ◌∷◌, inl, inr, Option-cases, string_eq,
  nat_eq, option_eq, Dict, lookup, insert, Sha256, arith,
}
use ai_backend_engineer_hand.Coordination.Types.{
  handoff_state_eq, claimed, dispatched, pending_reconciliation, verified_completed, cancelled,
  dispatch_status_eq, released, HandoffCandidate, Json, CurrentCoordinationFacts, HandoffRecord,
  ChildResultCandidate, SourceVersion, CoordinationStore,
}
use ai_backend_engineer_hand.Coordination.Store.{
  accept_handoff, new_record, refusal_of, mark_outbox_published, tokens_held, allocated_tokens,
}
use ai_backend_engineer_hand.Coordination.Ownership.{
  claim_handoff, take_over_lease, DispatchRequest, record_provider_dispatch,
}
use ai_backend_engineer_hand.Coordination.Outcomes.{
  mark_outcome_unknown, cancel_handoff, verify_result,
}

allocated-insert_new :
    (id : String) (r : HandoffRecord) (records : Dict HandoffRecord)
    → lookup id records ≡ none
    → allocated_tokens (insert id r records) ≡ tokens_held r + allocated_tokens records
unfolding allocated_tokens insert lookup
allocated-insert_new id r [] h = omega arith
allocated-insert_new id r ((j, q) ∷ records) h = ground (arith, allocated-insert_new id r records)

allocated-insert :
    (id : String) (q r : HandoffRecord) (records : Dict HandoffRecord)
    → lookup id records ≡ some q
    → allocated_tokens (insert id r records) + tokens_held q
      ≡ allocated_tokens records + tokens_held r
unfolding allocated_tokens insert lookup
allocated-insert id q r [] h = cc
allocated-insert id q r ((j, p) ∷ records) h = ground (arith, allocated-insert id q r records)

-- The parent has reserved what its children hold.
unfoldable pub IsFunded : CoordinationStore → Type 0
IsFunded s = allocated_tokens s.records ≤ s.parent_token_reservation

pub mark_outbox_published-IsFunded :
    (id : String) (time : ℕ) (s : CoordinationStore)
    → IsFunded s
    → IsFunded (mark_outbox_published id time s).1
unfolding mark_outbox_published IsFunded tokens_held
mark_outbox_published-IsFunded id time s f = elim (Option-cases (lookup id s.records)) [
  | inl e ↦ ground arith
  | inr (r, e) ↦
      let r' = record r { outbox_intent = record r.outbox_intent { published_at = some time } } in
      ground (arith, allocated-insert id r r' s.records e)
]

pub claim_handoff-IsFunded :
    (id worker : String) (now duration : ℕ) (s : CoordinationStore)
    → IsFunded s
    → IsFunded (claim_handoff id worker now duration s).1
unfolding claim_handoff IsFunded tokens_held
claim_handoff-IsFunded id worker now duration s f = elim (Option-cases (lookup id s.records)) [
  | inl e ↦ ground arith
  | inr (r, e) ↦
      let r' = record r {
        state = claimed;
        state_version = r.state_version + 1;
        claim_owner = some worker;
        lease_expires_at = some (now + duration);
        fence_token = r.fence_token + 1;
      } in
      ground (arith, allocated-insert id r r' s.records e)
]

pub take_over-IsFunded :
    (id worker : String) (now duration : ℕ) (s : CoordinationStore)
    → IsFunded s
    → IsFunded (take_over_lease id worker now duration s).1
unfolding take_over_lease IsFunded tokens_held
take_over-IsFunded id worker now duration s f = elim (Option-cases (lookup id s.records)) [
  | inl e ↦ ground arith
  | inr (r, e) ↦
      let r' = record r {
        state_version = r.state_version + 1;
        claim_owner = some worker;
        lease_expires_at = some (now + duration);
        fence_token = r.fence_token + 1;
      } in
      ground (arith, allocated-insert id r r' s.records e)
]

pub record_provider_dispatch-IsFunded :
    (id : String) (q : DispatchRequest) (operation : String) (s : CoordinationStore)
    → IsFunded s
    → IsFunded (record_provider_dispatch id q operation s).1
unfolding record_provider_dispatch IsFunded tokens_held
record_provider_dispatch-IsFunded id q operation s f = elim (Option-cases (lookup id s.records)) [
  | inl e ↦ ground arith
  | inr (r, e) ↦
      let r' = record r {
        state = dispatched;
        state_version = r.state_version + 1;
        operation_id = some operation;
      } in
      ground (arith, allocated-insert id r r' s.records e)
]

pub mark_outcome_unknown-IsFunded :
    (id operation : String) (s : CoordinationStore)
    → IsFunded s
    → IsFunded (mark_outcome_unknown id operation s).1
unfolding mark_outcome_unknown IsFunded tokens_held
mark_outcome_unknown-IsFunded id operation s f = elim (Option-cases (lookup id s.records)) [
  | inl e ↦ ground arith
  | inr (r, e) ↦
      let r' = record r { state = pending_reconciliation; state_version = r.state_version + 1 } in
      ground (arith, allocated-insert id r r' s.records e)
]

pub cancel_handoff-IsFunded :
    (id : String) (s : CoordinationStore) → IsFunded s → IsFunded (cancel_handoff id s).1
unfolding cancel_handoff IsFunded tokens_held
cancel_handoff-IsFunded id s f = elim (Option-cases (lookup id s.records)) [
  | inl e ↦ ground arith
  | inr (r, e) ↦
      let freed = record r {
        state = cancelled;
        state_version = r.state_version + 1;
        cancellation_requested = true;
        allocation = record r.allocation { status = released };
      } in
      let pending = record r {
        state = pending_reconciliation;
        state_version = r.state_version + 1;
        cancellation_requested = true;
      } in
      ground
        (arith, allocated-insert id r freed s.records e, allocated-insert id r pending s.records e)
]

pub verify_result-IsFunded :
    (c : ChildResultCandidate) (versions : List SourceVersion) (s : CoordinationStore)
    → IsFunded s
    → IsFunded (verify_result c versions s).1
unfolding verify_result IsFunded tokens_held
verify_result-IsFunded c versions s f = elim (Option-cases (lookup c.handoff_id s.records)) [
  | inl e ↦ ground arith
  | inr (r, e) ↦
      let r' = record r { state = verified_completed; state_version = r.state_version + 1 } in
      ground (arith, allocated-insert c.handoff_id r r' s.records e)
]

module _ ⦃json : Json⦄ ⦃sha : Sha256⦄ where
  refusal_of-none :
      (c : HandoffCandidate) (facts : CurrentCoordinationFacts) (now : ℕ) (s : CoordinationStore)
      → refusal_of c facts now s ≡ none
      → allocated_tokens s.records + c.requested_tokens ≤ s.parent_token_reservation
  unfolding refusal_of
  refusal_of-none c facts now s h = ground arith

  pub accept_handoff-IsFunded :
      (c : HandoffCandidate) (facts : CurrentCoordinationFacts) (now : ℕ) (s : CoordinationStore)
      → IsFunded s
      → IsFunded (accept_handoff c facts now s).1
  unfolding accept_handoff IsFunded tokens_held new_record
  accept_handoff-IsFunded c facts now s f = elim (Option-cases (lookup c.handoff_id s.records)) [
    | inr (r, e) ↦ ground arith
    | inl e ↦ elim (Option-cases (refusal_of c facts now s)) [
      | inr (reason, g) ↦ ground arith
      | inl g ↦ ground (
        arith,
        refusal_of-none c facts now s g,
        allocated-insert_new c.handoff_id (new_record c) s.records e,
      )
    ]
  ]
