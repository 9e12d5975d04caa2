-- ===== src/RetryPolicy/Store/Registrations.antt =====
-- `add_retryable` and `add_ready_operation` of `InMemoryRetryDispatchStore`
-- (projects/ai-agent/src/mcp_retry_policy.py).
use ai_backend_engineer_hand.Prelude.{
  String, Bool, false, not, ◌||◌, ◌&&◌, Option, none, some, [], ◌∷◌, Result, ok, raise_if, ◌>>◌,
  ◌==◌, string_eq, option_eq, nat_eq, ltb_ℤ, ℤ, pos, pos_part, is_some, all_given, insert, contains,
}
use ai_backend_engineer_hand.RemoteLifecycle.{
  proven_not_executed, execution_certainty_eq, absent, request_id_eq, FailureEvidence,
}
use ai_backend_engineer_hand.RetryPolicy.Store.Records.{
  ready_for_dispatch, ready_for_retry, RetryDispatchRecord, RetryDispatchStore,
}

-- `value is not None and value` and its opposites, on an optional text.
abbrev pub is_given : Option String → Bool
is_given none = false
is_given (some v) = not (v == "")

-- The binding is partly given.
unfoldable pub incomplete_binding : Option String → Option String → Option String → Bool
incomplete_binding tenant resource tool =
    (is_some tenant || is_some resource || is_some tool)
    && not (is_given tenant && is_given resource && is_given tool)

-- The record that `add_retryable` registers.
unfoldable pub retryable_record :
    FailureEvidence
    → (tenant resource tool : Option String) → (version fence : ℤ) → RetryDispatchRecord
retryable_record e tenant resource tool version fence = record {
  operation_id = e.operation_id;
  idempotency_key = e.idempotency_key;
  state = ready_for_retry;
  version = pos_part version;
  attempt_number = e.attempt_number;
  protocol_request_id = e.protocol_request_id;
  tenant_id = tenant;
  resource_id = resource;
  tool_name = tool;
  fence_token = pos_part fence;
  transport_generation = none;
  external_object_id = none;
}

-- `add_retryable`.
unfoldable pub add_retryable :
    FailureEvidence
    → (tenant resource tool : Option String) → (version fence : ℤ) → RetryDispatchStore
    → Result RetryDispatchStore
add_retryable e tenant resource tool version fence s = do
  raise_if (not (e.execution_certainty == proven_not_executed))
      "only proven-not-executed attempts can retry"
  raise_if (incomplete_binding tenant resource tool) "retryable operation binding must be complete"
  raise_if (ltb_ℤ version (pos 0) || ltb_ℤ fence (pos 0))
      "retryable version and fence must be non-negative"
  raise_if (contains e.operation_id s) "operation is already registered"
  ok (insert e.operation_id (retryable_record e tenant resource tool version fence) s)

-- The record that `add_ready_operation` registers.
unfoldable pub ready_record :
    (operation key tenant resource tool : String)
    → (version fence previous_attempt : ℤ) → RetryDispatchRecord
ready_record operation key tenant resource tool version fence previous = record {
  operation_id = operation;
  idempotency_key = key;
  state = ready_for_dispatch;
  version = pos_part version;
  attempt_number = pos_part previous;
  protocol_request_id = absent;
  tenant_id = some tenant;
  resource_id = some resource;
  tool_name = some tool;
  fence_token = pos_part fence;
  transport_generation = none;
  external_object_id = none;
}

-- `add_ready_operation`.
unfoldable pub add_ready_operation :
    (operation key tenant resource tool : String)
    → (version fence previous_attempt : ℤ) → RetryDispatchStore
    → Result RetryDispatchStore
add_ready_operation operation key tenant resource tool version fence previous s = do
  raise_if (not (all_given (operation ∷ key ∷ tenant ∷ resource ∷ tool ∷ [])))
      "ready operation identity must be complete"
  raise_if (ltb_ℤ version (pos 0) || ltb_ℤ fence (pos 0) || ltb_ℤ previous (pos 0))
      "ready operation counters must be non-negative"
  raise_if (contains operation s) "operation is already registered"
  ok (insert operation (ready_record operation key tenant resource tool version fence previous) s)
