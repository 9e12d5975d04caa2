-- ===== src/RetryPolicy/Cycle.antt =====
-- A retry from end to end: registered, planned, admitted, claimed and completed.
use ai_backend_engineer_hand.Prelude.{
  ℕ, String, ◌≡◌, ◌⊎◌, true, Option, none, some, ok, string_eq, ℤ, pos_part, lookup-insert_self,
  arith, Float,
}
use ai_backend_engineer_hand.RemoteLifecycle.{FailureEvidence, RequestId}
use ai_backend_engineer_hand.RetryPolicy.Policy.{
  RetryDecision, RetryAttemptPlan, RetryDispatchContext, is_admitted, admit_retry_dispatch,
  plan_retry_attempt,
}
use ai_backend_engineer_hand.RetryPolicy.Store.{
  ready_for_retry, claimed, RetryDispatchStore, add_retryable, retryable_record, ClaimExpectation,
  claim_dispatch,
}
use ai_backend_engineer_hand.RetryPolicy.Decisions.{
  plan_retry_attempt_facts, admit_retry_dispatch_iff,
}
use ai_backend_engineer_hand.RetryPolicy.Claims.{claim_dispatch-succeeds}

-- The default expectation of a retry: the state READY_FOR_RETRY at a version.
abbrev pub retry_expectation : ℕ → ClaimExpectation
retry_expectation version = record {
  expected_version = version;
  expected_state = ready_for_retry;
  expected_fence = none;
  new_fence = none;
  tenant_id = none;
  resource_id = none;
  tool_name = none;
}

module _ (float : Float) where
  -- A failed attempt that was registered, whose plan for a retry is made and admitted, is claimed
  -- at the version of its registration in the store that the registration leaves; a bound operation
  -- needs a transport generation in the plan.
  planned_retry_is_claimed :
      (e : FailureEvidence) (tenant resource tool : Option String) (version fence : ℤ)
      (s t : RetryDispatchStore) (d : RetryDecision float) (request : RequestId)
      (generation : Option ℕ) (a : RetryAttemptPlan float) (c : RetryDispatchContext float)
      → add_retryable e tenant resource tool version fence s ≡ ok t
      → plan_retry_attempt float e d request generation ≡ ok a
      → is_admitted float (admit_retry_dispatch float a c) ≡ true
      → (tenant ≡ none) ⊎ ((g : ℕ) × (generation ≡ some g))
      → (claim_dispatch float
          (admit_retry_dispatch float a c)
          (retry_expectation (pos_part version))
          t).0.outcome
        ≡ claimed
  unfolding add_retryable retryable_record
  planned_retry_is_claimed e tenant resource tool version fence s t d request generation a c
        registered planned admitted bound =
      let r = retryable_record e tenant resource tool version fence in
      let facts = plan_retry_attempt_facts float e d request generation a planned in
      let same = (admit_retry_dispatch_iff float a c).1 in
      claim_dispatch-succeeds float (admit_retry_dispatch float a c)
        (retry_expectation (pos_part version)) t r admitted
        (ground (arith, facts, same, lookup-insert_self e.operation_id r s))
        (ground (arith, facts, same))
