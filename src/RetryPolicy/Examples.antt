-- ===== src/RetryPolicy/Examples.antt =====
-- An attempt that was never sent, its retry, the claim of its dispatch and its completion.
use ai_backend_engineer_hand.Prelude.{
  ℕ, ◌≡◌, ◌≢◌, ◌↔◌, ◌+◌, refl, true, false, none, some, [], ◌∷◌, ok, String_discrete, ℕ_discrete,
  ltb, lookup, insert, arith, text_digest, milliseconds, str, join, string_eq, pos,
}
use ai_backend_engineer_hand.RemoteLifecycle.{
  FailureEvidence, check_evidence, RequestId-discrete, number, connect, connect_timeout, send,
  dispatch_owner_lost, proven_not_sent, possibly_sent, proven_not_executed, possibly_executed,
  DispatchCertainty-discrete, ExecutionCertainty-discrete,
}
use ai_backend_engineer_hand.RetryPolicy.Policy.{
  RetryDecisionKind, RetryDecisionKind-discrete, RetryDispatchDecisionKind-discrete, is_retryable,
  RetryContext, RetryDecision, is_eligible, RetryAttemptPlan, RetryDispatchContext, is_admitted,
  admit_retry_dispatch, plan_retry_attempt, BoundedRetryPolicy, blocked_reason, refusal,
  jitter_factor, delay_seconds, decide_delayed, decide,
}
use ai_backend_engineer_hand.RetryPolicy.Store.{
  RetryDispatchRecordState-discrete, dispatch_started, RetryDispatchRecord, claimed,
  RetryDispatchStore, incomplete_binding, retryable_record, add_retryable, started, claim_conflict,
  claim_dispatch, Completion, fits_completion, completed_record, compare_and_set_completed,
  recover_abandoned_dispatch,
}
use ai_backend_engineer_hand.RetryPolicy.Decisions.{MayRetry, decide-eligible_iff}
use ai_backend_engineer_hand.RetryPolicy.Histories.{here, claim_dispatch-one_winner}
use ai_backend_engineer_hand.RetryPolicy.Cycle.{retry_expectation}

abbrev evidence : FailureEvidence
evidence = record {
  operation_id = "operation";
  idempotency_key = "key";
  protocol_request_id = number (pos 1);
  attempt_number = 1;
  phase = connect;
  kind = connect_timeout;
  dispatch_certainty = proven_not_sent;
  execution_certainty = proven_not_executed;
  evidence_source = "connector";
}

abbrev policy : BoundedRetryPolicy milliseconds
policy = record {
  base_delay_seconds = 250;
  maximum_delay_seconds = 5000;
  jitter_ratio = 200;
  minimum_attempt_window_seconds = 50;
}

abbrev context : RetryContext milliseconds
context = record {
  now = 1000;
  deadline = 9000;
  retries_used = 0;
  max_retries = 2;
  caller_intent_active = true;
  authorization_current = true;
  capacity_admitted = true;
  circuit_allows_request = true;
}

abbrev retry : RetryDecision milliseconds
retry = record {
  kind = RetryDecisionKind.eligible;
  operation_id = "operation";
  idempotency_key = "key";
  next_attempt_number = some 2;
  delay_seconds = some 250;
}

delayed : delay_seconds milliseconds policy evidence 0 ≡ ok 250
unfolding delay_seconds jitter_factor str join
delayed = refl

decided : decide milliseconds policy evidence context ≡ ok retry
unfolding decide decide_delayed blocked_reason delay_seconds jitter_factor is_retryable str join
    ExecutionCertainty-discrete
decided = refl

decide-eligible_iff_example : (is_eligible milliseconds retry ≡ true) ↔ (
    MayRetry milliseconds evidence context
    × ((delay : ℕ) × (delay_seconds milliseconds policy evidence 0 ≡ ok delay)
        × (ltb 9000 (1000 + delay + 50) ≡ false)))
decide-eligible_iff_example = decide-eligible_iff milliseconds policy evidence context retry decided

-- A dispatch whose owner is gone.
abbrev abandoned : RetryDispatchRecord
abandoned = record {
  operation_id = "operation";
  idempotency_key = "key";
  state = dispatch_started;
  version = 3;
  attempt_number = 2;
  protocol_request_id = number (pos 2);
  tenant_id = none;
  resource_id = none;
  tool_name = none;
  fence_token = 0;
  transport_generation = none;
  external_object_id = none;
}

abbrev owner_lost : FailureEvidence
owner_lost = record {
  operation_id = "operation";
  idempotency_key = "key";
  protocol_request_id = number (pos 2);
  attempt_number = 2;
  phase = send;
  kind = dispatch_owner_lost;
  dispatch_certainty = possibly_sent;
  execution_certainty = possibly_executed;
  evidence_source = "durable-dispatch-marker-recovery";
}

recovered : recover_abandoned_dispatch abandoned ≡ ok owner_lost
unfolding recover_abandoned_dispatch check_evidence String_discrete
    RetryDispatchRecordState-discrete DispatchCertainty-discrete ExecutionCertainty-discrete
recovered = refl

abbrev refused : RetryDecision milliseconds
refused = record {
  kind = RetryDecisionKind.possible_execution;
  operation_id = "operation";
  idempotency_key = "key";
  next_attempt_number = none;
  delay_seconds = none;
}

refused_decided : decide milliseconds policy owner_lost context ≡ ok refused
unfolding decide blocked_reason refusal ExecutionCertainty-discrete
refused_decided = refl

abbrev registered : RetryDispatchStore
unfolding insert retryable_record
registered = insert "operation" (retryable_record evidence none none none (pos 0) (pos 0)) []

evidence_registered : add_retryable evidence none none none (pos 0) (pos 0) [] ≡ ok registered
unfolding registered insert retryable_record add_retryable incomplete_binding lookup String_discrete
    ExecutionCertainty-discrete
evidence_registered = refl

abbrev plan : RetryAttemptPlan milliseconds
plan = record {
  operation_id = "operation";
  idempotency_key = "key";
  protocol_request_id = number (pos 2);
  attempt_number = 2;
  delay_seconds = 250;
  transport_generation = none;
}

planned : plan_retry_attempt milliseconds evidence retry (number (pos 2)) none ≡ ok plan
unfolding plan_retry_attempt RetryDecisionKind-discrete String_discrete RequestId-discrete
    ℕ_discrete
planned = refl

abbrev dispatch_context : RetryDispatchContext milliseconds
dispatch_context = record {
  now = 1250;
  deadline = 9000;
  caller_intent_active = true;
  authorization_current = true;
  capacity_admitted = true;
  circuit_allows_request = true;
  minimum_attempt_window_seconds = 50;
}

plan_admitted :
    is_admitted milliseconds (admit_retry_dispatch milliseconds plan dispatch_context) ≡ true
unfolding is_admitted admit_retry_dispatch RetryDispatchDecisionKind-discrete
plan_admitted = refl

plan_claimed :
    (claim_dispatch milliseconds
      (admit_retry_dispatch milliseconds plan dispatch_context)
      (retry_expectation 0)
      registered).0.outcome
    ≡ claimed
unfolding registered insert retryable_record claim_dispatch claim_conflict started is_admitted
    admit_retry_dispatch lookup String_discrete ℕ_discrete RetryDispatchDecisionKind-discrete
    RetryDispatchRecordState-discrete
plan_claimed = refl

claim_dispatch-one_winner_example :
    let d = admit_retry_dispatch milliseconds plan dispatch_context in
    (claim_dispatch milliseconds d
      (retry_expectation 0)
      (claim_dispatch milliseconds d (retry_expectation 0) registered).1).0.outcome
    ≢ claimed
unfolding admit_retry_dispatch
claim_dispatch-one_winner_example =
    let d = admit_retry_dispatch milliseconds plan dispatch_context in
    claim_dispatch-one_winner milliseconds d d (retry_expectation 0) (retry_expectation 0)
      registered plan_claimed here refl (omega arith)

-- A bound operation that is in flight, and its success.
abbrev dispatched : RetryDispatchRecord
dispatched = record abandoned {
  tenant_id = some "tenant";
  resource_id = some "resource";
  tool_name = some "tool";
  transport_generation = some 4;
}

abbrev completion : Completion
completion = record {
  operation_id = "operation";
  idempotency_key = "key";
  tenant_id = "tenant";
  resource_id = "resource";
  tool_name = "tool";
  attempt_number = 2;
  protocol_request_id = number (pos 2);
  transport_generation = 4;
  expected_state = dispatch_started;
  expected_version = 3;
  expected_fence = 0;
  external_object_id = "object";
}

abbrev in_flight : RetryDispatchStore
in_flight = ("operation", dispatched) ∷ []

completed_once : (compare_and_set_completed completion in_flight).0 ≢ none
unfolding compare_and_set_completed fits_completion completed_record lookup String_discrete
    ℕ_discrete RequestId-discrete RetryDispatchRecordState-discrete
completed_once e = cc
