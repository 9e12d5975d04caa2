-- ===== src/RetryPolicy/Histories.antt =====
-- What holds of an operation's record over every history of registrations, claims and completions,
-- by whatever callers.
use ai_backend_engineer_hand.Prelude.{
  String, ◌≤◌, ◌≡◌, ◌≢◌, inl, inr, string_eq, String_discrete, Option, none, some, ok, ℤ, lookup,
  insert, lookup-insert, lookup-insert_self, arith, Float,
}
use ai_backend_engineer_hand.RemoteLifecycle.{FailureEvidence}
use ai_backend_engineer_hand.RetryPolicy.Policy.{RetryDispatchDecision}
use ai_backend_engineer_hand.RetryPolicy.Store.{
  RetryDispatchRecord, claimed, RetryDispatchStore, add_retryable, add_ready_operation,
  retryable_record, ready_record, ClaimExpectation, started, claim_dispatch, Completion,
  completed_record, compare_and_set_completed,
}
use ai_backend_engineer_hand.RetryPolicy.Claims.{
  claim_dispatch-cases, compare_and_set_completed-cases,
}

-- What never changes in a record, and what only grows.
pub record Evolves (r r' : RetryDispatchRecord) : Type 0 where
  pub operation_id : r'.operation_id ≡ r.operation_id
  pub idempotency_key : r'.idempotency_key ≡ r.idempotency_key
  pub tenant_id : r'.tenant_id ≡ r.tenant_id
  pub resource_id : r'.resource_id ≡ r.resource_id
  pub tool_name : r'.tool_name ≡ r.tool_name
  pub version : r.version ≤ r'.version
  pub attempt_number : r.attempt_number ≤ r'.attempt_number

Evolves-refl : (r : RetryDispatchRecord) → Evolves r r
Evolves-refl r = ground arith

Evolves-trans :
    {q r : RetryDispatchRecord} (s : RetryDispatchRecord) → Evolves q r → Evolves r s → Evolves q s
Evolves-trans s f g = ground arith

module _ (float : Float) where
  -- One call that returns; a registration that raises changes nothing and is no step.
  pub data Step : RetryDispatchStore → RetryDispatchStore → Type 0 where
    register_retry :
        (s t : RetryDispatchStore) (e : FailureEvidence) (tenant resource tool : Option String)
        (version fence : ℤ)
        → add_retryable e tenant resource tool version fence s ≡ ok t
        → Step s t
    register_ready :
        (s t : RetryDispatchStore) (operation key tenant resource tool : String)
        (version fence previous : ℤ)
        → add_ready_operation operation key tenant resource tool version fence previous s ≡ ok t
        → Step s t
    claim :
        (s : RetryDispatchStore) (d : RetryDispatchDecision float) (x : ClaimExpectation)
        → Step s (claim_dispatch float d x s).1
    complete : (s : RetryDispatchStore) (c : Completion) → Step s (compare_and_set_completed c s).1

  pub data Reaches (s : RetryDispatchStore) : RetryDispatchStore → Type 0 where
    here : Reaches s s
    next : {t u : RetryDispatchStore} → Reaches s t → Step t u → Reaches s u

  -- The record of an operation in a store, after the one before.
  abbrev pub Kept : String → RetryDispatchRecord → RetryDispatchStore → Type 0
  Kept id r t = (r' : RetryDispatchRecord) × (lookup id t ≡ some r') × Evolves r r'

  insert-Kept :
      (id j : String) (r old v : RetryDispatchRecord) (s : RetryDispatchStore)
      → lookup id s ≡ some r
      → (j ≡ id → Evolves r v)
      → Kept id r (insert j v s)
  insert-Kept id j r old v s found same = elim (String_discrete j id) [
    | yes e ↦ (v, ground (arith, lookup-insert j id v s), same e)
    | no n ↦ (r, ground (arith, lookup-insert j id v s), Evolves-refl r)
  ]

  Step-Kept :
      (id : String) {s t : RetryDispatchStore} (r : RetryDispatchRecord)
      → Step s t
      → lookup id s ≡ some r
      → Kept id r t
  unfolding add_retryable add_ready_operation started completed_record
  Step-Kept id r (register_retry s t e tenant resource tool version fence h) found = (
    r,
    ground (
      arith,
      lookup-insert e.operation_id id (retryable_record e tenant resource tool version fence) s,
    ),
    Evolves-refl r,
  )
  Step-Kept id r (register_ready s t op key tenant resource tool version fence previous h) found = (
    r,
    ground (
      arith,
      lookup-insert op id (ready_record op key tenant resource tool version fence previous) s,
    ),
    Evolves-refl r,
  )
  Step-Kept id r (claim s d x) found = elim (claim_dispatch-cases float d x s) [
    | inl (_, same, _) ↦ rw same (r, found, Evolves-refl r)
    | inr (q, _, old, fits, _, _, same) ↦ rw same (
        insert-Kept id d.attempt.operation_id r q (started float d.attempt x q) s found
          (λ e. ground (arith, fits, old, e)))
  ]
  Step-Kept id r (complete s c) found = elim (compare_and_set_completed-cases c s) [
    | inl (_, same) ↦ rw same (r, found, Evolves-refl r)
    | inr (q, old, fits, _, same) ↦ rw same (
        insert-Kept id c.operation_id r q (completed_record c q) s found
          (λ e. ground (arith, fits, old, e)))
  ]

  -- A registered operation stays registered under its identity, key, tenant, resource and tool; its
  -- version and attempt number never fall.
  pub Reaches-Kept :
      (id : String) {s t : RetryDispatchStore} (r : RetryDispatchRecord)
      → Reaches s t
      → lookup id s ≡ some r
      → Kept id r t
  Reaches-Kept id r here found = (r, found, Evolves-refl r)
  Reaches-Kept id r (next before st) found =
      let (q, kept, first) = Reaches-Kept id r before found in
      let (u, last, second) = Step-Kept id q st kept in (u, last, Evolves-trans u first second)

  -- One winner: once a dispatch is claimed, no claim of the same operation that expects the version
  -- of before, or an older one, is claimed after any history of registrations, claims and
  -- completions.
  pub claim_dispatch-one_winner :
      (d other : RetryDispatchDecision float) (x y : ClaimExpectation) (s : RetryDispatchStore)
      {t : RetryDispatchStore}
      → (claim_dispatch float d x s).0.outcome ≡ claimed
      → Reaches (claim_dispatch float d x s).1 t
      → other.attempt.operation_id ≡ d.attempt.operation_id
      → y.expected_version ≤ x.expected_version
      → (claim_dispatch float other y t).0.outcome ≢ claimed
  unfolding started
  claim_dispatch-one_winner d other x y s {t} won reached same old again =
      elim (claim_dispatch-cases float d x s) [
        | inl (lost, _, _) ↦ lost won
        | inr (r, _, _, fits, _, _, written) ↦
            let id = d.attempt.operation_id in
            let mine : lookup id (claim_dispatch float d x s).1
                ≡ some (started float d.attempt x r) =
              rw written (lookup-insert_self id (started float d.attempt x r) s) in
            let (q, now, later) = Reaches-Kept id (started float d.attempt x r) reached mine in
            elim (claim_dispatch-cases float other y t) [
              | inl (lost, _, _) ↦ lost again
              | inr (q', _, found, fits', _, _, _) ↦
                  ground (arith, same, now, found, fits, fits', later)
            ]
      ]

  -- A success is recorded once: after a completion, no other of the same operation that expects the
  -- version of before, or an older one, is recorded or changes anything, after any history.
  completion-once :
      (c other : Completion) (s : RetryDispatchStore) {t : RetryDispatchStore}
      → (compare_and_set_completed c s).0 ≢ none
      → Reaches (compare_and_set_completed c s).1 t
      → other.operation_id ≡ c.operation_id
      → other.expected_version ≤ c.expected_version
      → compare_and_set_completed other t ≡ (none, t)
  unfolding completed_record
  completion-once c other s {t} won reached same old = elim (compare_and_set_completed-cases c s) [
    | inl (lost, _) ↦ absurd (won lost)
    | inr (r, _, fits, _, written) ↦
        let mine : lookup c.operation_id (compare_and_set_completed c s).1
            ≡ some (completed_record c r) =
          rw written (lookup-insert_self c.operation_id (completed_record c r) s) in
        let (q, now, later) = Reaches-Kept c.operation_id (completed_record c r) reached mine in
        elim (compare_and_set_completed-cases other t) [
          | inl (refused, unchanged) ↦ ground arith
          | inr (q', found, fits', _, _) ↦
              absurd (ground (arith, same, now, found, fits, fits', later))
        ]
  ]
