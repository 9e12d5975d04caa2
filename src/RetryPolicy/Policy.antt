-- ===== src/RetryPolicy/Policy.antt =====
-- The decisions of projects/ai-agent/src/mcp_retry_policy.py: may a failed attempt be retried, is the
-- retry still admitted when its delay is over. Times are floats, an interface.
use ai_backend_engineer_hand.Prelude.{
  ℕ, String, ◌+◌, ◌^◌, Bool, true, false, not, ◌||◌, ◌&&◌, Option, none, some, [], ◌∷◌, Result, ok,
  raised, value_error, raise_if, ◌>>=◌, ◌>>◌, Eq, ◌==◌, holds, string_eq, option_eq, nat_eq, leb,
  ltb_ℤ, ℤ, pos, pos_part, Sha256, join, str, Float, min_float, if◌then◌else◌,
}
use ai_backend_engineer_hand.RemoteLifecycle.{
  FailureKind, connect_timeout, transport_unavailable, send_failure, jwks_refresh_failed,
  capacity_rejected, authoritative_not_executed, proven_not_executed, execution_certainty_eq,
  RequestId, request_id_eq, FailureEvidence,
}

pub data RetryDecisionKind : Type 0 where
  eligible possible_dispatch possible_execution caller_intent_inactive failure_not_retryable
        retry_budget_exhausted deadline_exhausted authorization_not_current capacity_not_admitted
        circuit_open :
      RetryDecisionKind

unfoldable pub RetryDecisionKind-discrete : Discrete RetryDecisionKind
RetryDecisionKind-discrete = hlevel

instance abbrev pub retry_decision_kind_eq : Eq RetryDecisionKind
retry_decision_kind_eq = record { beq = λ a b. holds (RetryDecisionKind-discrete a b) }

pub data RetryDispatchDecisionKind : Type 0 where
  admitted caller_intent_inactive deadline_exhausted authorization_not_current capacity_not_admitted
        circuit_open :
      RetryDispatchDecisionKind

unfoldable pub RetryDispatchDecisionKind-discrete : Discrete RetryDispatchDecisionKind
RetryDispatchDecisionKind-discrete = hlevel

instance abbrev pub retry_dispatch_kind_eq : Eq RetryDispatchDecisionKind
retry_dispatch_kind_eq = record { beq = λ a b. holds (RetryDispatchDecisionKind-discrete a b) }

-- `evidence.kind in {...}`.
unfoldable pub is_retryable : FailureKind → Bool
is_retryable connect_timeout = true
is_retryable transport_unavailable = true
is_retryable send_failure = true
is_retryable jwks_refresh_failed = true
is_retryable capacity_rejected = true
is_retryable authoritative_not_executed = true
is_retryable _ = false

module _ (float : Float) where
  open float use {F, lt, le, add, sub, mul, ratio, is_finite, mul_int}

  pub record RetryContext : Type 0 where
    pub now : F
    pub deadline : F
    pub retries_used : ℕ
    pub max_retries : ℕ
    pub caller_intent_active : Bool
    pub authorization_current : Bool
    pub capacity_admitted : Bool
    pub circuit_allows_request : Bool

  -- `RetryContext(...)`: the counts are given as integers apart, and stand in the record.
  unfoldable pub check_retry_context :
      (retries_used max_retries : ℤ) → RetryContext → Result RetryContext
  check_retry_context used max c = do
    raise_if (not (is_finite c.now) || not (is_finite c.deadline))
        "retry clock values must be finite"
    raise_if (ltb_ℤ used (pos 0) || ltb_ℤ max (pos 0)) "retry counts must be non-negative"
    ok (record c { retries_used = pos_part used; max_retries = pos_part max })

  pub record RetryDecision : Type 0 where
    pub kind : RetryDecisionKind
    pub operation_id : String
    pub idempotency_key : String
    pub next_attempt_number : Option ℕ
    pub delay_seconds : Option F

  -- `RetryDecision.eligible`.
  unfoldable pub is_eligible : RetryDecision → Bool
  is_eligible d = d.kind == RetryDecisionKind.eligible

  pub record RetryAttemptPlan : Type 0 where
    pub operation_id : String
    pub idempotency_key : String
    pub protocol_request_id : RequestId
    pub attempt_number : ℕ
    pub delay_seconds : F
    pub transport_generation : Option ℕ

  pub record RetryDispatchContext : Type 0 where
    pub now : F
    pub deadline : F
    pub caller_intent_active : Bool
    pub authorization_current : Bool
    pub capacity_admitted : Bool
    pub circuit_allows_request : Bool
    pub minimum_attempt_window_seconds : F

  -- `RetryDispatchContext.__post_init__`.
  unfoldable pub check_dispatch_context : RetryDispatchContext → Result RetryDispatchContext
  check_dispatch_context c = do
    raise_if (not (is_finite c.now) || not (is_finite c.deadline))
        "dispatch clock values must be finite"
    raise_if (lt c.minimum_attempt_window_seconds (ratio 0 1))
        "minimum attempt window must be non-negative"
    ok c

  pub record RetryDispatchDecision : Type 0 where
    pub kind : RetryDispatchDecisionKind
    pub attempt : RetryAttemptPlan
    pub transport_calls : ℕ

  -- `RetryDispatchDecision.admitted`.
  unfoldable pub is_admitted : RetryDispatchDecision → Bool
  is_admitted d = d.kind == RetryDispatchDecisionKind.admitted

  unfoldable pub admit_retry_dispatch :
      RetryAttemptPlan → RetryDispatchContext → RetryDispatchDecision
  admit_retry_dispatch plan c = record {
    kind =
        if not c.caller_intent_active
        then RetryDispatchDecisionKind.caller_intent_inactive
        else if lt c.deadline (add c.now c.minimum_attempt_window_seconds)
        then RetryDispatchDecisionKind.deadline_exhausted
        else if not c.authorization_current
        then RetryDispatchDecisionKind.authorization_not_current
        else if not c.capacity_admitted
        then RetryDispatchDecisionKind.capacity_not_admitted
        else if not c.circuit_allows_request
        then RetryDispatchDecisionKind.circuit_open
        else RetryDispatchDecisionKind.admitted;
    attempt = plan;
    transport_calls = 0;
  }

  -- The plan, from the two optional parts of the decision.
  plan_parts :
      Option ℕ → Option F → FailureEvidence → RequestId → Option ℕ → Result RetryAttemptPlan
  plan_parts (some n) (some delay) e request generation =
      if not (n == e.attempt_number + 1)
      then raised (value_error "retry decision has an invalid attempt sequence")
      else ok (record {
        operation_id = e.operation_id;
        idempotency_key = e.idempotency_key;
        protocol_request_id = request;
        attempt_number = n;
        delay_seconds = delay;
        transport_generation = generation;
      })
  plan_parts _ _ e request generation =
      raised (value_error "retry decision has an invalid attempt sequence")

  unfoldable pub plan_retry_attempt :
      FailureEvidence → RetryDecision → RequestId → Option ℕ → Result RetryAttemptPlan
  unfolding plan_parts is_eligible
  plan_retry_attempt e d request generation = do
    raise_if (not (is_eligible d)) "only an eligible retry decision can create an attempt"
    raise_if
        (not (d.operation_id == e.operation_id) || not (d.idempotency_key == e.idempotency_key))
        "retry decision changed application operation identity"
    raise_if (request == e.protocol_request_id) "a retry requires a fresh protocol_request_id"
    plan_parts d.next_attempt_number d.delay_seconds e request generation

  pub record BoundedRetryPolicy : Type 0 where
    pub base_delay_seconds : F
    pub maximum_delay_seconds : F
    pub jitter_ratio : F
    pub minimum_attempt_window_seconds : F

  -- `BoundedRetryPolicy()`: the defaults 0.25, 5.0, 0.2 and 0.05.
  unfoldable pub default_policy : BoundedRetryPolicy
  default_policy = record {
    base_delay_seconds = ratio 1 4;
    maximum_delay_seconds = ratio 5 1;
    jitter_ratio = ratio 1 5;
    minimum_attempt_window_seconds = ratio 1 20;
  }

  -- `BoundedRetryPolicy.__post_init__`.
  unfoldable pub check_policy : BoundedRetryPolicy → Result BoundedRetryPolicy
  check_policy p = do
    raise_if (le p.base_delay_seconds (ratio 0 1) || not (is_finite p.base_delay_seconds))
        "base delay must be finite and positive"
    raise_if (lt p.maximum_delay_seconds p.base_delay_seconds)
        "maximum delay must not be below base delay"
    raise_if (not (le (ratio 0 1) p.jitter_ratio && le p.jitter_ratio (ratio 1 1)))
        "jitter ratio must be between zero and one"
    raise_if (lt p.minimum_attempt_window_seconds (ratio 0 1))
        "minimum attempt window must be non-negative"
    ok p

  -- `_blocked_reason`.
  unfoldable pub blocked_reason : FailureEvidence → RetryContext → Option RetryDecisionKind
  blocked_reason e c =
      if not (e.execution_certainty == proven_not_executed)
      then some RetryDecisionKind.possible_execution
      else if not c.caller_intent_active
      then some RetryDecisionKind.caller_intent_inactive
      else if not (is_retryable e.kind)
      then some RetryDecisionKind.failure_not_retryable
      else if leb c.max_retries c.retries_used
      then some RetryDecisionKind.retry_budget_exhausted
      else if le c.deadline c.now
      then some RetryDecisionKind.deadline_exhausted
      else if not c.authorization_current
      then some RetryDecisionKind.authorization_not_current
      else if not c.capacity_admitted
      then some RetryDecisionKind.capacity_not_admitted
      else if not c.circuit_allows_request
      then some RetryDecisionKind.circuit_open
      else none

  unfoldable pub refusal : RetryDecisionKind → FailureEvidence → RetryDecision
  refusal kind e = record {
    kind = kind;
    operation_id = e.operation_id;
    idempotency_key = e.idempotency_key;
    next_attempt_number = none;
    delay_seconds = none;
  }

  module _ ⦃sha : Sha256⦄ where
    -- The jitter's factor, from the first eight bytes of a digest over the attempt's identity.
    unfoldable pub jitter_factor : BoundedRetryPolicy → FailureEvidence → F
    jitter_factor p e =
        let unit =
          ratio
            (sha.digest_prefix
              (join ":" (e.operation_id ∷ e.idempotency_key ∷ str e.attempt_number ∷ [])))
            18446744073709551615 in
        add (ratio 1 1) (mul p.jitter_ratio (sub (mul (ratio 2 1) unit) (ratio 1 1)))

    -- `_delay_seconds`.
    unfoldable pub delay_seconds : BoundedRetryPolicy → FailureEvidence → ℕ → Result F
    delay_seconds p e retries_used = do
      scaled ← mul_int p.base_delay_seconds (2 ^ retries_used)
      ok (
          min_float float p.maximum_delay_seconds
            (mul (min_float float p.maximum_delay_seconds scaled) (jitter_factor p e)))

    -- What `decide` does with a delay.
    unfoldable pub decide_delayed :
        BoundedRetryPolicy → FailureEvidence → RetryContext → F → RetryDecision
    decide_delayed p e c delay =
        if lt c.deadline (add (add c.now delay) p.minimum_attempt_window_seconds)
        then refusal RetryDecisionKind.deadline_exhausted e
        else record {
          kind = RetryDecisionKind.eligible;
          operation_id = e.operation_id;
          idempotency_key = e.idempotency_key;
          next_attempt_number = some (e.attempt_number + 1);
          delay_seconds = some delay;
        }

    unfoldable pub decide :
        BoundedRetryPolicy → FailureEvidence → RetryContext → Result RetryDecision
    unfolding decide_delayed
    decide p e c = elim (blocked_reason e c) [
      | some blocked ↦ ok (refusal blocked e)
      | none ↦ delay_seconds p e c.retries_used >>= λ delay. ok (decide_delayed p e c delay)
    ]
