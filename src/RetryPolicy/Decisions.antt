-- ===== src/RetryPolicy/Decisions.antt =====
-- What the retry policy promises: it retries exactly when every guard passes, within its delay, and
-- never what may have been executed.
use ai_backend_engineer_hand.Prelude.{
  ℕ, ◌+◌, ◌^◌, ◌<◌, ◌≡◌, ◌≢◌, ◌↔◌, inl, inr, true, false, Option, none, some, Option-cases,
  Result-cases, Bool-cases, sym, ap, ◌∙◌, if◌then◌else◌, ok, >>=-eq-ok, ok-injective, arith, Sha256,
  Float, min_float,
}
use mathlib.Core.Path.{subst}
use ai_backend_engineer_hand.RemoteLifecycle.{
  proven_not_executed, RequestId, FailureEvidence, check_evidence,
}
use ai_backend_engineer_hand.RetryPolicy.Policy.{
  RetryDecisionKind, is_retryable, RetryContext, RetryDecision, is_eligible, RetryAttemptPlan,
  RetryDispatchContext, is_admitted, admit_retry_dispatch, plan_retry_attempt, BoundedRetryPolicy,
  blocked_reason, refusal, delay_seconds, jitter_factor, decide_delayed, decide,
}
use ai_backend_engineer_hand.RetryPolicy.Store.{RetryDispatchRecord, recover_abandoned_dispatch}

module _ (float : Float) where
  open float use {F, lt, le, add, mul, mul_int, lt_asymm}

  -- A dispatch is admitted exactly if, when the delay is over, the caller still wants it, the attempt
  -- fits before the deadline, and authorization, capacity and circuit still allow it. Admission
  -- calls no transport and keeps the plan.
  pub admit_retry_dispatch_iff :
      (a : RetryAttemptPlan float) (c : RetryDispatchContext float)
      → let d = admit_retry_dispatch float a c in
        ((is_admitted float d ≡ true) ↔ (
          (c.caller_intent_active ≡ true)
          × (lt c.deadline (add c.now c.minimum_attempt_window_seconds) ≡ false)
          × (c.authorization_current ≡ true)
          × (c.capacity_admitted ≡ true)
          × (c.circuit_allows_request ≡ true)))
        × (d.attempt ≡ a)
        × (d.transport_calls ≡ 0)
  unfolding admit_retry_dispatch is_admitted
  admit_retry_dispatch_iff a c = ground arith

  -- A plan keeps the operation and the idempotency key of the failed attempt, has the next attempt
  -- number and a request identity that is not the failed attempt's.
  pub plan_retry_attempt_facts :
      (e : FailureEvidence) (d : RetryDecision float) (request : RequestId) (generation : Option ℕ)
      (a : RetryAttemptPlan float)
      → plan_retry_attempt float e d request generation ≡ ok a
      → (is_eligible float d ≡ true)
        × (a.operation_id ≡ e.operation_id)
        × (a.idempotency_key ≡ e.idempotency_key)
        × (a.attempt_number ≡ e.attempt_number + 1)
        × (a.protocol_request_id ≡ request)
        × (request ≢ e.protocol_request_id)
        × (a.transport_generation ≡ generation)
        × (d.delay_seconds ≡ some a.delay_seconds)
  unfolding plan_retry_attempt
  plan_retry_attempt_facts e d request generation a h = ground arith

  -- The guards of a retry.
  pub record MayRetry (e : FailureEvidence) (c : RetryContext float) : Type 0 where
    pub not_executed : e.execution_certainty ≡ proven_not_executed
    pub wanted : c.caller_intent_active ≡ true
    pub retryable : is_retryable e.kind ≡ true
    pub retries_left : c.retries_used < c.max_retries
    pub in_time : le c.deadline c.now ≡ false
    pub authorized : c.authorization_current ≡ true
    pub capacity : c.capacity_admitted ≡ true
    pub circuit : c.circuit_allows_request ≡ true

  blocked_reason_iff :
      (e : FailureEvidence) (c : RetryContext float)
      → (blocked_reason float e c ≡ none) ↔ MayRetry e c
  unfolding blocked_reason
  blocked_reason_iff e c = ground arith

  blocked_reason-ne_eligible :
      (e : FailureEvidence) (c : RetryContext float)
      → blocked_reason float e c ≢ some RetryDecisionKind.eligible
  unfolding blocked_reason
  blocked_reason-ne_eligible e c h = ground arith

  module _ ⦃sha : Sha256⦄ where
    -- A delay that is returned is not above the policy's maximum, whatever the jitter.
    pub delay_seconds-le-maximum :
        (p : BoundedRetryPolicy float) (e : FailureEvidence) (n : ℕ) (delay : F)
        → delay_seconds float p e n ≡ ok delay
        → lt p.maximum_delay_seconds delay ≡ false
    unfolding delay_seconds
    delay_seconds-le-maximum p e n delay h =
        let (scaled, m, k) = >>=-eq-ok (mul_int p.base_delay_seconds (2 ^ n)) _ h in
        let top = p.maximum_delay_seconds in
        let jittered = mul (min_float float top scaled) (jitter_factor float p e) in
        ground (arith, k, lt_asymm top top, lt_asymm jittered top)

    decide_unblocked :
        (p : BoundedRetryPolicy float) (e : FailureEvidence) (c : RetryContext float)
        (d : RetryDecision float)
        → blocked_reason float e c ≡ none
        → decide float p e c ≡ ok d
        → (delay : F) × (delay_seconds float p e c.retries_used ≡ ok delay)
          × (d ≡ decide_delayed float p e c delay)
    unfolding decide
    decide_unblocked p e c d free h = elim (Result-cases (delay_seconds float p e c.retries_used)) [
      | inl (delay, same) ↦ (delay, same, ground arith)
      | inr (error, failed) ↦ absurd (ground arith)
    ]

    decide_blocked :
        (p : BoundedRetryPolicy float) (e : FailureEvidence) (c : RetryContext float)
        (d : RetryDecision float) (k : RetryDecisionKind)
        → blocked_reason float e c ≡ some k
        → decide float p e c ≡ ok d
        → d ≡ refusal float k e
    unfolding decide
    decide_blocked p e c d k blocked h = ground arith

    decide_delayed-eligible :
        (p : BoundedRetryPolicy float) (e : FailureEvidence) (c : RetryContext float) (delay : F)
        → (is_eligible float (decide_delayed float p e c delay) ≡ true)
          ↔ (lt c.deadline (add (add c.now delay) p.minimum_attempt_window_seconds) ≡ false)
    unfolding decide_delayed is_eligible refusal
    decide_delayed-eligible p e c delay = ground arith

    refusal-not_eligible :
        (e : FailureEvidence) (k : RetryDecisionKind)
        → k ≢ RetryDecisionKind.eligible
        → is_eligible float (refusal float k e) ≡ false
    unfolding is_eligible refusal
    refusal-not_eligible e k h = ground arith

    -- A returned decision is eligible exactly if every guard of a retry passes and the attempt,
    -- after its delay, still fits before the deadline.
    pub decide-eligible_iff :
        (p : BoundedRetryPolicy float) (e : FailureEvidence) (c : RetryContext float)
        (d : RetryDecision float)
        → decide float p e c ≡ ok d
        → (is_eligible float d ≡ true) ↔ (
            MayRetry e c
            × ((delay : F) × (delay_seconds float p e c.retries_used ≡ ok delay)
                × (lt c.deadline (add (add c.now delay) p.minimum_attempt_window_seconds) ≡ false)))
    decide-eligible_iff p e c d h = elim (Option-cases (blocked_reason float e c)) [
      | inl free ↦
          let (delay, delayed, same) = decide_unblocked p e c d free h in
          let fits = decide_delayed-eligible p e c delay in
          (
            λ fine. ((blocked_reason_iff e c).0 free, (delay, delayed, fits.0 (rw same at fine))),
            λ may. rw same (
                fits.1 (
                  subst
                    (λ t.
                      lt c.deadline (add (add c.now t) p.minimum_attempt_window_seconds) ≡ false)
                    (ok-injective (sym may.1.1 ∙ delayed)) may.1.2)),
          )
      | inr (k, blocked) ↦
          let same = decide_blocked p e c d k blocked h in
          let refused =
            refusal-not_eligible e k (λ x. blocked_reason-ne_eligible e c (blocked ∙ ap some x)) in
          (
            λ fine. absurd (ground (arith, rw same at fine, refused)),
            λ may. absurd (ground (arith, blocked, (blocked_reason_iff e c).1 may.0)),
          )
    ]

    -- Whatever is decided, the operation and its key are kept; an eligible decision numbers the next
    -- attempt and carries its delay, any other carries neither.
    pub decide_facts :
        (p : BoundedRetryPolicy float) (e : FailureEvidence) (c : RetryContext float)
        (d : RetryDecision float)
        → decide float p e c ≡ ok d
        → (d.operation_id ≡ e.operation_id)
          × (d.idempotency_key ≡ e.idempotency_key)
          × (d.next_attempt_number
              ≡ (if is_eligible float d then some (e.attempt_number + 1) else none))
          × ((is_eligible float d ≡ true) ↔ ((delay : F) × (d.delay_seconds ≡ some delay)))
    unfolding is_eligible refusal decide_delayed
    decide_facts p e c d h = elim (Option-cases (blocked_reason float e c)) [
      | inl free ↦
          let (delay, delayed, same) = decide_unblocked p e c d free h in rw same (ground arith)
      | inr (k, blocked) ↦
          rw (decide_blocked p e c d k blocked h)
            (ground (arith, blocked_reason-ne_eligible e c, blocked))
    ]

    -- The evidence that is recovered from a dispatch whose owner crashed is not eligible for a
    -- retry, under any policy and in any context.
    abandoned-not_eligible :
        (p : BoundedRetryPolicy float) (r : RetryDispatchRecord) (e : FailureEvidence)
        (c : RetryContext float) (d : RetryDecision float)
        → recover_abandoned_dispatch r ≡ ok e
        → decide float p e c ≡ ok d
        → is_eligible float d ≡ false
    unfolding recover_abandoned_dispatch check_evidence
    abandoned-not_eligible p r e c d lost h = elim (Bool-cases (is_eligible float d)) [
      | inl fine ↦ absurd (ground (arith, (decide-eligible_iff p e c d h).0 fine))
      | inr refused ↦ refused
    ]
