-- ===== src/RetryPolicy/Claims.antt =====
-- What the store of dispatches promises: a dispatch is claimed by one caller, attempts are numbered
-- in sequence, and only the attempt that was dispatched can be completed.
use ai_backend_engineer_hand.Prelude.{
  ℕ, String, ◌+◌, ◌<◌, ◌≡◌, ◌≢◌, ◌↔◌, ◌⊎◌, inl, inr, true, string_eq, Option, none, some,
  Option-cases, Bool-cases, lookup, insert, arith, Float,
}
use ai_backend_engineer_hand.RetryPolicy.Policy.{
  RetryAttemptPlan, RetryDispatchDecision, is_admitted,
}
use ai_backend_engineer_hand.RetryPolicy.Store.{
  RetryDispatchRecord, claimed, RetryDispatchStore, ClaimExpectation, started, claim_conflict,
  claim_dispatch, Completion, fits_completion, completed_record, compare_and_set_completed,
}

-- An optional expectation is met.
abbrev pub Meets : Option String → Option String → Type 0
Meets none current = Unit
Meets (some v) current = current ≡ some v

abbrev pub FenceMeets : Option ℕ → Option ℕ → ℕ → Type 0
FenceMeets none new current = Unit
FenceMeets (some e) none current = current ≡ e
FenceMeets (some e) (some n) current = (current ≡ e) × (e < n)

module _ (float : Float) where
  -- The record is as the claim expects, and the plan is its next attempt.
  pub record Claimable (a : RetryAttemptPlan float) (x : ClaimExpectation) (r : RetryDispatchRecord)
      : Type 0 where
    pub idempotency_key : r.idempotency_key ≡ a.idempotency_key
    pub tenant_id : Meets x.tenant_id r.tenant_id
    pub resource_id : Meets x.resource_id r.resource_id
    pub tool_name : Meets x.tool_name r.tool_name
    pub state : r.state ≡ x.expected_state
    pub version : r.version ≡ x.expected_version
    pub fence : FenceMeets x.expected_fence x.new_fence r.fence_token
    pub attempt_number : a.attempt_number ≡ r.attempt_number + 1
    pub generation : (r.tenant_id ≡ none) ⊎ ((g : ℕ) × (a.transport_generation ≡ some g))

  claim_conflict_iff :
      (a : RetryAttemptPlan float) (x : ClaimExpectation) (r : RetryDispatchRecord)
      → (claim_conflict float a x r ≡ none) ↔ Claimable a x r
  unfolding claim_conflict
  claim_conflict_iff a x r = ground arith

  claim_conflict-ne_claimed :
      (a : RetryAttemptPlan float) (x : ClaimExpectation) (r : RetryDispatchRecord)
      → claim_conflict float a x r ≢ some claimed
  unfolding claim_conflict
  claim_conflict-ne_claimed a x r h = ground arith

  -- A claim either changes nothing and is not reported as claimed, or it is admitted, found claimable
  -- as the record stands, and writes the started record.
  pub claim_dispatch-cases :
      (d : RetryDispatchDecision float) (x : ClaimExpectation) (s : RetryDispatchStore)
      → let (claim, s') = claim_dispatch float d x s in
        ((claim.outcome ≢ claimed) × (s' ≡ s) × (claim.record_after ≡ none))
        ⊎ ((r : RetryDispatchRecord) × (is_admitted float d ≡ true)
            × (lookup d.attempt.operation_id s ≡ some r)
            × Claimable d.attempt x r
            × (claim.outcome ≡ claimed)
            × (claim.record_after ≡ some (started float d.attempt x r))
            × (s' ≡ insert d.attempt.operation_id (started float d.attempt x r) s))
  unfolding claim_dispatch
  claim_dispatch-cases d x s = elim (Bool-cases (is_admitted float d)) [
    | inr refused ↦ inl (ground arith)
    | inl admitted ↦ elim (Option-cases (lookup d.attempt.operation_id s)) [
      | inl unknown ↦ inl (ground arith)
      | inr (r, found) ↦ elim (Option-cases (claim_conflict float d.attempt x r)) [
        | inl free ↦ inr (
          r,
          admitted,
          found,
          (claim_conflict_iff d.attempt x r).0 free,
          ground arith,
          ground arith,
          ground arith,
        )
        | inr (outcome, conflict) ↦ inl (ground (arith, claim_conflict-ne_claimed d.attempt x r))
      ]
    ]
  ]

  -- An admitted dispatch of a record that is as expected is claimed.
  pub claim_dispatch-succeeds :
      (d : RetryDispatchDecision float) (x : ClaimExpectation) (s : RetryDispatchStore)
      (r : RetryDispatchRecord)
      → is_admitted float d ≡ true
      → lookup d.attempt.operation_id s ≡ some r
      → Claimable d.attempt x r
      → (claim_dispatch float d x s).0.outcome ≡ claimed
  unfolding claim_dispatch
  claim_dispatch-succeeds d x s r admitted found fits =
      ground (arith, (claim_conflict_iff d.attempt x r).1 fits)

-- A completion either changes nothing, or the record is the very attempt that it names.
pub record Completable (c : Completion) (r : RetryDispatchRecord) : Type 0 where
  pub idempotency_key : r.idempotency_key ≡ c.idempotency_key
  pub tenant_id : r.tenant_id ≡ some c.tenant_id
  pub resource_id : r.resource_id ≡ some c.resource_id
  pub tool_name : r.tool_name ≡ some c.tool_name
  pub attempt_number : r.attempt_number ≡ c.attempt_number
  pub protocol_request_id : r.protocol_request_id ≡ c.protocol_request_id
  pub transport_generation : r.transport_generation ≡ some c.transport_generation
  pub state : r.state ≡ c.expected_state
  pub version : r.version ≡ c.expected_version
  pub fence_token : r.fence_token ≡ c.expected_fence

fits_completion_iff :
    (c : Completion) (r : RetryDispatchRecord) → (fits_completion c r ≡ true) ↔ Completable c r
unfolding fits_completion
fits_completion_iff c r = ground arith

pub compare_and_set_completed-cases :
    (c : Completion) (s : RetryDispatchStore)
    → let (result, s') = compare_and_set_completed c s in
      ((result ≡ none) × (s' ≡ s))
      ⊎ ((r : RetryDispatchRecord) × (lookup c.operation_id s ≡ some r)
          × Completable c r
          × (result ≡ some (completed_record c r))
          × (s' ≡ insert c.operation_id (completed_record c r) s))
unfolding compare_and_set_completed
compare_and_set_completed-cases c s = elim (Option-cases (lookup c.operation_id s)) [
  | inl unknown ↦ inl (ground arith)
  | inr (r, found) ↦ elim (Bool-cases (fits_completion c r)) [
    | inl fits ↦ inr (r, found, (fits_completion_iff c r).0 fits, ground arith, ground arith)
    | inr other ↦ inl (ground arith)
  ]
]
