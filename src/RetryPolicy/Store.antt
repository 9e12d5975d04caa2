-- ===== src/RetryPolicy/Store.antt =====
-- `InMemoryRetryDispatchStore` and the recovery of an abandoned dispatch
-- (projects/ai-agent/src/mcp_retry_policy.py). Counters in the store are natural numbers: those that a
-- caller brings in are checked, the others are only compared.
mod Records
mod Registrations
pub use Records.{
  RetryDispatchRecordState, ready_for_dispatch, ready_for_retry, dispatch_started, completed,
  record_state_eq, RetryDispatchRecord, RetryDispatchClaimOutcome, claimed, not_admitted,
  identity_conflict, state_conflict, version_conflict, fence_conflict, attempt_sequence_conflict,
  transport_generation_required, RetryDispatchClaim, RetryDispatchStore,
}
unfoldable pub use Records.{RetryDispatchRecordState-discrete}
unfoldable pub use Registrations.{
  incomplete_binding, retryable_record, add_retryable, ready_record, add_ready_operation,
}
use ai_backend_engineer_hand.Prelude.{
  ℕ, String, ◌+◌, Bool, true, false, not, ◌||◌, ◌&&◌, Option, none, some, [], ◌∷◌, Result, ok,
  raised, value_error, raise_if, ◌>>◌, Eq, ◌==◌, holds, string_eq, option_eq, nat_eq, leb, ltb_ℤ, ℤ,
  pos, pos_part, is_some, is_none, all_given, Dict, lookup, insert, contains, Float, if◌then◌else◌,
}
use ai_backend_engineer_hand.RemoteLifecycle.{
  proven_not_executed, possibly_executed, possibly_sent, send, dispatch_owner_lost,
  execution_certainty_eq, RequestId, absent, request_id_eq, FailureEvidence, check_evidence,
}
use ai_backend_engineer_hand.RetryPolicy.Policy.{
  RetryAttemptPlan, RetryDispatchDecision, is_admitted,
}

-- `read`.
unfoldable pub read : String → RetryDispatchStore → Option RetryDispatchRecord
read operation s = lookup operation s

-- What a caller of `claim_dispatch` expects of the record.
pub record ClaimExpectation : Type 0 where
  pub expected_version : ℕ
  pub expected_state : RetryDispatchRecordState
  pub expected_fence : Option ℕ
  pub new_fence : Option ℕ
  pub tenant_id : Option String
  pub resource_id : Option String
  pub tool_name : Option String

-- `value is not None and current != value`.
abbrev pub differs : {A : Type 0} ⦃e : Eq A⦄ → Option A → Option A → Bool
differs none current = false
differs (some v) current = not (current == some v)

-- `value is not None and current != value`, for a counter that is always there.
abbrev pub fence_differs : Option ℕ → ℕ → Bool
fence_differs none current = false
fence_differs (some f) current = not (current == f)

-- `new is not None and expected is not None and new <= expected`.
abbrev pub fence_falls : Option ℕ → Option ℕ → Bool
fence_falls (some n) (some e) = leb n e
fence_falls _ _ = false

-- A claim that changes nothing.
abbrev pub refused : RetryDispatchClaimOutcome → RetryDispatchClaim
refused outcome = record {
  outcome = outcome;
  record_after = none;
  durable_transition = false;
  transport_calls = 0;
}

-- `current.fence_token if new_fence is None else new_fence`.
abbrev pub fence_or : Option ℕ → ℕ → ℕ
fence_or none current = current
fence_or (some n) current = n

module _ (float : Float) where
  -- The record of an operation whose dispatch is claimed.
  unfoldable pub started :
      RetryAttemptPlan float → ClaimExpectation → RetryDispatchRecord → RetryDispatchRecord
  started a x r = record r {
    state = dispatch_started;
    version = r.version + 1;
    attempt_number = a.attempt_number;
    protocol_request_id = a.protocol_request_id;
    fence_token = fence_or x.new_fence r.fence_token;
    transport_generation = a.transport_generation;
  }

  -- The tests of `claim_dispatch` on a record of the operation: the first that fails, if any.
  unfoldable pub claim_conflict :
      RetryAttemptPlan float
      → ClaimExpectation
      → RetryDispatchRecord
      → Option RetryDispatchClaimOutcome
  claim_conflict a x r =
      if not (r.idempotency_key == a.idempotency_key)
        || differs x.tenant_id r.tenant_id
        || differs x.resource_id r.resource_id
        || differs x.tool_name r.tool_name
      then some identity_conflict
      else if not (r.state == x.expected_state)
      then some state_conflict
      else if not (r.version == x.expected_version)
      then some version_conflict
      else if fence_differs x.expected_fence r.fence_token
      then some fence_conflict
      else if fence_falls x.new_fence x.expected_fence
      then some fence_conflict
      else if not (a.attempt_number == r.attempt_number + 1)
      then some attempt_sequence_conflict
      else if is_some r.tenant_id && is_none a.transport_generation
      then some transport_generation_required
      else none

  -- What `claim_dispatch` does with the record that it finds.
  claim_found :
      Option RetryDispatchRecord
      → RetryAttemptPlan float
      → ClaimExpectation
      → RetryDispatchStore
      → RetryDispatchClaim × RetryDispatchStore
  claim_found none a x s = (refused identity_conflict, s)
  claim_found (some r) a x s = elim (claim_conflict a x r) [
    | some outcome ↦ (refused outcome, s)
    | none ↦
        let updated = started a x r in
        (
          record {
            outcome = claimed;
            record_after = some updated;
            durable_transition = true;
            transport_calls = 0;
          },
          insert a.operation_id updated s,
        )
  ]

  -- `claim_dispatch`.
  unfoldable pub claim_dispatch :
      RetryDispatchDecision float
      → ClaimExpectation
      → RetryDispatchStore
      → RetryDispatchClaim × RetryDispatchStore
  unfolding claim_found
  claim_dispatch d x s =
      if not (is_admitted float d)
      then (refused not_admitted, s)
      else claim_found (lookup d.attempt.operation_id s) d.attempt x s

-- What a caller of `compare_and_set_completed` expects of the record, and the object to record.
pub record Completion : Type 0 where
  pub operation_id : String
  pub idempotency_key : String
  pub tenant_id : String
  pub resource_id : String
  pub tool_name : String
  pub attempt_number : ℕ
  pub protocol_request_id : RequestId
  pub transport_generation : ℕ
  pub expected_state : RetryDispatchRecordState
  pub expected_version : ℕ
  pub expected_fence : ℕ
  pub external_object_id : String

-- The record is the one that the completion expects.
unfoldable pub fits_completion : Completion → RetryDispatchRecord → Bool
fits_completion c r =
    r.idempotency_key == c.idempotency_key
    && r.tenant_id == some c.tenant_id
    && r.resource_id == some c.resource_id
    && r.tool_name == some c.tool_name
    && r.attempt_number == c.attempt_number
    && r.protocol_request_id == c.protocol_request_id
    && r.transport_generation == some c.transport_generation
    && r.state == c.expected_state
    && r.version == c.expected_version
    && r.fence_token == c.expected_fence

unfoldable pub completed_record : Completion → RetryDispatchRecord → RetryDispatchRecord
completed_record c r = record r {
  state = completed;
  version = r.version + 1;
  external_object_id = some c.external_object_id;
}

complete_found :
    Option RetryDispatchRecord
    → Completion
    → RetryDispatchStore
    → Option RetryDispatchRecord × RetryDispatchStore
complete_found none c s = (none, s)
complete_found (some r) c s =
    if not (fits_completion c r)
    then (none, s)
    else (some (completed_record c r), insert c.operation_id (completed_record c r) s)

-- `compare_and_set_completed`.
unfoldable pub compare_and_set_completed :
    Completion → RetryDispatchStore → Option RetryDispatchRecord × RetryDispatchStore
unfolding complete_found
compare_and_set_completed c s = complete_found (lookup c.operation_id s) c s

-- `recover_abandoned_dispatch`.
unfoldable pub recover_abandoned_dispatch : RetryDispatchRecord → Result FailureEvidence
recover_abandoned_dispatch r =
    if not (r.state == dispatch_started)
    then raised (value_error "only a started dispatch can lose its owner")
    else check_evidence (record {
      operation_id = r.operation_id;
      idempotency_key = r.idempotency_key;
      protocol_request_id = r.protocol_request_id;
      attempt_number = r.attempt_number;
      phase = send;
      kind = dispatch_owner_lost;
      dispatch_certainty = possibly_sent;
      execution_certainty = possibly_executed;
      evidence_source = "durable-dispatch-marker-recovery";
    })
