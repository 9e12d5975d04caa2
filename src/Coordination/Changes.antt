-- ===== src/Coordination/Changes.antt =====
-- That every operation of the store keeps what earlier ones have settled
-- (projects/ai-agent/src/multi_agent_coordination.py).
use ai_backend_engineer_hand.Prelude.{
  ℕ, String, ◌+◌, ◌≡◌, refl, ◌≢◌, ◌⊎◌, inl, inr, ◌≤◌, Bool, true, not, ◌||◌, Option, none, some,
  List, [], ◌∷◌, ◌++◌, Option-cases, Bool-cases, sym, String_discrete, ◌==◌, string_eq, nat_eq,
  option_eq, leb, lookup, lookup-insert, Sha256, is_some, arith,
}
use ai_backend_engineer_hand.Coordination.Types.{
  released, ChildAllocation, dispatch_status_eq, HandoffState, handoff_state_eq, accepted, claimed,
  dispatched, pending_reconciliation, verified_completed, cancelled, allowed, HandoffCandidate,
  Json, CurrentCoordinationFacts, HandoffRecord, ChildResultCandidate, SourceVersion,
  CoordinationStore,
}
use ai_backend_engineer_hand.Coordination.Store.{
  accept_handoff, new_record, refusal_of, mark_outbox_published,
}
use ai_backend_engineer_hand.Coordination.Ownership.{
  with_record, claim_handoff, lease_runs, take_over_lease, DispatchRequest,
  authorize_provider_dispatch, record_provider_dispatch,
}
use ai_backend_engineer_hand.Coordination.Outcomes.{
  mark_outcome_unknown, cancel_handoff, verification_status, is_verified, verify_result,
}
use ai_backend_engineer_hand.Coordination.Evolution.{
  progress, IsOwned, Evolves, Evolves-refl, Keeps, AllOwned, Follows, Follows-trans, Follows-owned,
  same-Follows, write-Follows,
}

pub mark_outbox_published-Follows :
    (id : String) (time : ℕ) (s : CoordinationStore)
    → AllOwned s
    → Follows s (mark_outbox_published id time s).1
unfolding mark_outbox_published AllOwned IsOwned
mark_outbox_published-Follows id time s o = elim (Option-cases (lookup id s.records)) [
  | inl e ↦ same-Follows s _ o (ground arith)
  | inr (r, e) ↦ elim (Bool-cases (is_some r.outbox_intent.published_at)) [
    | inl h ↦ same-Follows s _ o (ground arith)
    | inr h ↦
        let r' = record r { outbox_intent = record r.outbox_intent { published_at = some time } } in
        write-Follows id r r' s _ o e (ground arith) (record {
          same_candidate = refl;
          same_attempt = refl;
          fences = omega arith;
          owners = λ h. refl;
          forward = omega arith;
          finished = λ h. refl;
          owned = o id r e;
        })
  ]
]

pub claim_handoff-Follows :
    (id worker : String) (now duration : ℕ) (s : CoordinationStore)
    → AllOwned s
    → Follows s (claim_handoff id worker now duration s).1
unfolding claim_handoff AllOwned IsOwned progress
claim_handoff-Follows id worker now duration s o = elim (Bool-cases (leb duration 0)) [
  | inl d ↦ same-Follows s _ o (rw d refl)
  | inr d ↦ elim (Option-cases (lookup id s.records)) [
    | inl e ↦ same-Follows s _ o (rw (d, e) refl)
    | inr (r, e) ↦ elim (Bool-cases (r.state == cancelled)) [
      | inl c ↦ same-Follows s _ o (rw (d, e, c) refl)
      | inr c ↦ elim (Option-cases r.claim_owner) [
        | inr (owner, w) ↦ same-Follows s _ o (rw (d, e, c, w) refl)
        | inl w ↦
            let r' = record r {
              state = claimed;
              state_version = r.state_version + 1;
              claim_owner = some worker;
              lease_expires_at = some (now + duration);
              fence_token = r.fence_token + 1;
            } in
            let owned = o id r e w in
            write-Follows id r r' s _ o e (rw (d, e, c, w) refl) (record {
              same_candidate = refl;
              same_attempt = refl;
              fences = omega arith;
              owners = λ h. ground arith;
              forward = ground (arith, owned);
              finished = λ h. ground (arith, owned);
              owned = λ h. cc;
            })
      ]
    ]
  ]
]

pub take_over-Follows :
    (id worker : String) (now duration : ℕ) (s : CoordinationStore)
    → AllOwned s
    → Follows s (take_over_lease id worker now duration s).1
unfolding take_over_lease AllOwned IsOwned
take_over-Follows id worker now duration s o = elim (Bool-cases (leb duration 0)) [
  | inl d ↦ same-Follows s _ o (rw d refl)
  | inr d ↦ elim (Option-cases (lookup id s.records)) [
    | inl e ↦ same-Follows s _ o (rw (d, e) refl)
    | inr (r, e) ↦ elim (Bool-cases (r.claim_owner == none || lease_runs r.lease_expires_at now)) [
      | inl c ↦ same-Follows s _ o (rw (d, e, c) refl)
      | inr c ↦
          let r' = record r {
            state_version = r.state_version + 1;
            claim_owner = some worker;
            lease_expires_at = some (now + duration);
            fence_token = r.fence_token + 1;
          } in
          write-Follows id r r' s _ o e (rw (d, e, c) refl) (record {
            same_candidate = refl;
            same_attempt = refl;
            fences = omega arith;
            owners = λ h. ground arith;
            forward = omega arith;
            finished = λ h. refl;
            owned = λ h. cc;
          })
    ]
  ]
]

-- A new state of a record that is owned and not finished.
moved-Evolves :
    (r : HandoffRecord) (state : HandoffState) (operation : Option String)
    (allocation : ChildAllocation) (requested : Bool)
    → progress r.state ≤ 3
    → progress r.state ≤ progress state
    → (r.claim_owner ≢ none) ⊎ (state ≡ cancelled)
    → Evolves r (record r {
      state = state;
      state_version = r.state_version + 1;
      operation_id = operation;
      allocation = allocation;
      cancellation_requested = requested;
    })
unfolding IsOwned
moved-Evolves r state operation allocation requested p f o = record {
  same_candidate = refl;
  same_attempt = refl;
  fences = omega arith;
  owners = λ h. refl;
  forward = f;
  finished = λ h. ground (arith, p, h);
  owned = λ h. ground (arith, o);
}

-- A dispatched or claimed handoff has an owner.
started_owned :
    (r : HandoffRecord)
    → IsOwned r
    → (r.state ≢ accepted) × (r.state ≢ cancelled)
    → r.claim_owner ≢ none
unfolding IsOwned
started_owned r o s h = ground (arith, o h)

allowed_claimed :
    (id : String) (q : DispatchRequest) (s : CoordinationStore) (r : HandoffRecord)
    → lookup id s.records ≡ some r
    → authorize_provider_dispatch id q s ≡ allowed
    → r.state ≡ claimed
unfolding authorize_provider_dispatch
allowed_claimed id q s r e h = ground arith

pub record_provider_dispatch-Follows :
    (id : String) (q : DispatchRequest) (operation : String) (s : CoordinationStore)
    → AllOwned s
    → Follows s (record_provider_dispatch id q operation s).1
unfolding record_provider_dispatch AllOwned progress
record_provider_dispatch-Follows id q operation s o =
    elim (Bool-cases (authorize_provider_dispatch id q s == allowed)) [
      | inr a ↦ same-Follows s _ o (rw a refl)
      | inl a ↦ elim (Option-cases (lookup id s.records)) [
        | inl e ↦ same-Follows s _ o (rw (a, e) refl)
        | inr (r, e) ↦
            let state = allowed_claimed id q s r e (ground (arith, a)) in
            let r' = record r {
              state = dispatched;
              state_version = r.state_version + 1;
              operation_id = some operation;
            } in
            write-Follows id r r' s _ o e (rw (a, e) refl) (
              moved-Evolves r dispatched (some operation) r.allocation r.cancellation_requested
                (ground (arith, state)) (ground (arith, state))
                (inl (started_owned r (o id r e) (ground (arith, state)))))
      ]
    ]

pub mark_outcome_unknown-Follows :
    (id operation : String) (s : CoordinationStore)
    → AllOwned s
    → Follows s (mark_outcome_unknown id operation s).1
unfolding mark_outcome_unknown AllOwned progress
mark_outcome_unknown-Follows id operation s o = elim (Option-cases (lookup id s.records)) [
  | inl e ↦ same-Follows s _ o (ground arith)
  | inr (r, e) ↦
      elim (Bool-cases (not (r.state == dispatched) || not (r.operation_id == some operation))) [
        | inl c ↦ same-Follows s _ o (ground arith)
        | inr c ↦
            let r' = record r {
              state = pending_reconciliation;
              state_version = r.state_version + 1;
            } in
            write-Follows id r r' s _ o e (ground arith) (
              moved-Evolves r pending_reconciliation r.operation_id r.allocation
                r.cancellation_requested (ground (arith, c)) (ground (arith, c))
                (inl (started_owned r (o id r e) (ground (arith, c)))))
      ]
]

pub cancel_handoff-Follows :
    (id : String) (s : CoordinationStore) → AllOwned s → Follows s (cancel_handoff id s).1
unfolding cancel_handoff AllOwned progress
cancel_handoff-Follows id s o = elim (Option-cases (lookup id s.records)) [
  | inl e ↦ same-Follows s _ o (ground arith)
  | inr (r, e) ↦ elim (Bool-cases (r.state == cancelled || r.state == verified_completed)) [
    | inl c ↦ same-Follows s _ o (ground arith)
    | inr c ↦ elim (Bool-cases (r.state == accepted || r.state == claimed)) [
      | inl a ↦
          let allocation = record r.allocation { status = released } in
          let r' = record r {
            state = cancelled;
            state_version = r.state_version + 1;
            cancellation_requested = true;
            allocation = allocation;
          } in
          write-Follows id r r' s _ o e (ground (arith, c, a)) (
            moved-Evolves r cancelled r.operation_id allocation true (ground (arith, c, a))
              (ground (arith, c, a)) (inr refl))
      | inr a ↦
          let r' = record r {
            state = pending_reconciliation;
            state_version = r.state_version + 1;
            cancellation_requested = true;
          } in
          write-Follows id r r' s _ o e (ground (arith, c, a)) (
            moved-Evolves r pending_reconciliation r.operation_id r.allocation true
              (ground (arith, c, a)) (ground (arith, c, a))
              (inl (started_owned r (o id r e) (ground (arith, c, a)))))
    ]
  ]
]

verified_dispatched :
    (c : ChildResultCandidate) (versions : List SourceVersion) (terminal : Bool) (r : HandoffRecord)
    → is_verified (verification_status c versions terminal r) ≡ true
    → r.state ≡ dispatched
unfolding verification_status is_verified
verified_dispatched c versions terminal r h = ground (arith, h)

-- More evidence alone changes no handoff.
pub evidence-Follows : (s t : CoordinationStore) → AllOwned s → t.records ≡ s.records → Follows s t
unfolding Follows Keeps AllOwned
evidence-Follows s t o e = (
  λ id r h. (r, ground (arith, h, e), Evolves-refl r (o id r h)),
  λ id r h. o id r (ground (arith, h, e)),
)

pub verify_result-Follows :
    (c : ChildResultCandidate) (versions : List SourceVersion) (s : CoordinationStore)
    → AllOwned s
    → Follows s (verify_result c versions s).1
unfolding verify_result AllOwned progress
verify_result-Follows c versions s o = elim (Option-cases (lookup c.handoff_id s.records)) [
  | inl e ↦ same-Follows s _ o (ground arith)
  | inr (r, e) ↦
      let status = verification_status c versions s.parent_terminal r in
      let noted = record s {
        result_evidence =
            s.result_evidence
            ++ record {
              candidate = c;
              status = status;
              applied_to_current_state = is_verified status;
            }
              ∷ [];
      } in
      let still = evidence-Follows s noted o refl in
      elim (Bool-cases (is_verified status)) [
        | inr v ↦ evidence-Follows s _ o (ground arith)
        | inl v ↦
            let state = verified_dispatched c versions s.parent_terminal r v in
            let r' = record r { state = verified_completed; state_version = r.state_version + 1 } in
            Follows-trans s noted _ still (
              write-Follows c.handoff_id r r' noted _ (Follows-owned s noted still) e (ground arith)
                (moved-Evolves r verified_completed r.operation_id r.allocation
                  r.cancellation_requested (ground (arith, state)) (ground (arith, state))
                  (inl (started_owned r (o c.handoff_id r e) (ground (arith, state))))))
      ]
]

-- A handoff that was not there.
new-Follows :
    (id : String) (r : HandoffRecord) (s : CoordinationStore)
    → AllOwned s
    → lookup id s.records ≡ none
    → IsOwned r
    → Follows s (with_record id r s)
unfolding Follows Keeps AllOwned
new-Follows id r s o h v = (
  λ j q g. (q, ground (arith, lookup-insert id j r s.records, g, h), Evolves-refl q (o j q g)),
  λ j q g. elim (String_discrete id j) [
    | yes same ↦
        let new : r ≡ q = ground (arith, lookup-insert id j r s.records, g) in rw (sym new) v
    | no other ↦ o j q (ground (arith, lookup-insert id j r s.records))
  ],
)

module _ ⦃json : Json⦄ ⦃sha : Sha256⦄ where
  new_record-IsOwned : (c : HandoffCandidate) → IsOwned (new_record c)
  unfolding new_record IsOwned
  new_record-IsOwned c h = inl refl

  pub accept_handoff-Follows :
      (c : HandoffCandidate) (facts : CurrentCoordinationFacts) (now : ℕ) (s : CoordinationStore)
      → AllOwned s
      → Follows s (accept_handoff c facts now s).1
  unfolding accept_handoff
  accept_handoff-Follows c facts now s o = elim (Option-cases (lookup c.handoff_id s.records)) [
    | inr (r, e) ↦ same-Follows s _ o (ground arith)
    | inl e ↦ elim (Option-cases (refusal_of c facts now s)) [
      | inr (reason, f) ↦ same-Follows s _ o (ground arith)
      | inl f ↦
          let written : (accept_handoff c facts now s).1
              ≡ with_record c.handoff_id (new_record c) s =
            ground arith in
          rw written (new-Follows c.handoff_id (new_record c) s o e (new_record-IsOwned c))
    ]
  ]
