-- ===== src/RetryPolicy/Store/Records.antt =====
-- The records of `InMemoryRetryDispatchStore` (projects/ai-agent/src/mcp_retry_policy.py), and what a
-- claim returns.
use ai_backend_engineer_hand.Prelude.{
  ℕ, String, Bool, Option, Eq, holds, string_eq, option_eq, nat_eq, Dict,
}
use ai_backend_engineer_hand.RemoteLifecycle.{execution_certainty_eq, RequestId, request_id_eq}

pub data RetryDispatchRecordState : Type 0 where
  ready_for_dispatch ready_for_retry dispatch_started completed : RetryDispatchRecordState

unfoldable pub RetryDispatchRecordState-discrete : Discrete RetryDispatchRecordState
RetryDispatchRecordState-discrete = hlevel

instance abbrev pub record_state_eq : Eq RetryDispatchRecordState
record_state_eq = record { beq = λ a b. holds (RetryDispatchRecordState-discrete a b) }

pub record RetryDispatchRecord : Type 0 where
  pub operation_id : String
  pub idempotency_key : String
  pub state : RetryDispatchRecordState
  pub version : ℕ
  pub attempt_number : ℕ
  pub protocol_request_id : RequestId
  pub tenant_id : Option String
  pub resource_id : Option String
  pub tool_name : Option String
  pub fence_token : ℕ
  pub transport_generation : Option ℕ
  pub external_object_id : Option String

pub data RetryDispatchClaimOutcome : Type 0 where
  claimed not_admitted identity_conflict state_conflict version_conflict fence_conflict
        attempt_sequence_conflict transport_generation_required :
      RetryDispatchClaimOutcome

pub record RetryDispatchClaim : Type 0 where
  pub outcome : RetryDispatchClaimOutcome
  pub record_after : Option RetryDispatchRecord
  pub durable_transition : Bool
  pub transport_calls : ℕ

-- The store: `_records`.
abbrev pub RetryDispatchStore : Type 0
RetryDispatchStore = Dict RetryDispatchRecord
