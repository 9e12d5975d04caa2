-- ===== src/Reconciliation/Schedule.antt =====
-- `BoundedReconciliationPolicy` of projects/ai-agent/src/mcp_reconciliation.py. The counters are
-- natural numbers, as the check of the state asks for; the alert port is a parameter.
use ai_backend_engineer_hand.Prelude.{
  ℕ, String, ◌+◌, ◌-◌, ◌^◌, Bool, true, false, not, ◌||◌, Option, none, some, [], ◌∷◌, Result, ok,
  raised, value_error, raise_if, ◌>>=◌, ◌>>◌, ◌==◌, ltb, leb, Sha256, join, str, Float, min_float,
  if◌then◌else◌,
}
use ai_backend_engineer_hand.Reconciliation.Types.{
  ApplicationOperationBinding, same_binding, evidence_conflict, reconciliation_kind_eq, is_resolved,
  ReconciliationDecision,
}

pub data ReconciliationScheduleOutcome : Type 0 where
  next_query_scheduled resolution_ready operational_alert_required already_alerted :
      ReconciliationScheduleOutcome

pub record ReconciliationOperationalAlert : Type 0 where
  pub operation_ref : String
  pub reason : String
  pub queries_used : ℕ

-- The alert of a schedule that ends without a resolution.
abbrev pub alert_of : String → Bool → Bool → ℕ → ReconciliationOperationalAlert
alert_of operation_ref conflict exhausted queries = record {
  operation_ref = operation_ref;
  reason =
      if conflict
      then "EVIDENCE_CONFLICT"
      else if exhausted
      then "QUERY_BUDGET_EXHAUSTED"
      else "RECONCILIATION_DEADLINE_EXHAUSTED";
  queries_used = queries;
}

module _ (float : Float) where
  open float use {F, lt, add, sub, mul, ratio, is_finite, mul_int}

  pub record ReconciliationScheduleState : Type 0 where
    pub binding : ApplicationOperationBinding
    pub queries_used : ℕ
    pub maximum_queries : ℕ
    pub deadline : F
    pub next_query_at : Option F
    pub alert_emitted : Bool
    pub pending_reconciliation : Bool

  -- `ReconciliationScheduleState.__post_init__`.
  unfoldable pub check_schedule_state :
      ReconciliationScheduleState → Result ReconciliationScheduleState
  check_schedule_state q = do
    raise_if (ltb q.maximum_queries 1) "reconciliation query budget must be positive"
    raise_if (ltb q.maximum_queries q.queries_used) "queries_used exceeds reconciliation budget"
    raise_if (not (is_finite q.deadline)) "reconciliation deadline must be finite"
    ok q

  pub record ReconciliationScheduleDecision : Type 0 where
    pub outcome : ReconciliationScheduleOutcome
    pub state : ReconciliationScheduleState
    pub original_tool_calls : ℕ
    pub durable_transition : Bool

  abbrev pub scheduled :
      ReconciliationScheduleOutcome → ReconciliationScheduleState → ReconciliationScheduleDecision
  scheduled outcome q = record {
    outcome = outcome;
    state = q;
    original_tool_calls = 0;
    durable_transition = false;
  }

  -- The policy; its class has no checks.
  pub record BoundedReconciliationPolicy : Type 0 where
    pub base_delay_seconds : F
    pub maximum_delay_seconds : F
    pub jitter_ratio : F
    pub minimum_query_window_seconds : F

  module _ ⦃sha : Sha256⦄ where
    -- `_delay_seconds`, for a positive number of queries.
    unfoldable pub query_delay : BoundedReconciliationPolicy → String → ℕ → Result F
    query_delay p operation_id queries = do
      scaled ← mul_int p.base_delay_seconds (2 ^ (queries - 1))
      let unit =
          ratio (sha.digest_prefix (join ":" ("reconcile" ∷ operation_id ∷ str queries ∷ [])))
            18446744073709551615
      let factor = add (ratio 1 1) (mul p.jitter_ratio (sub (mul (ratio 2 1) unit) (ratio 1 1)))
      ok (
          min_float float p.maximum_delay_seconds
            (mul (min_float float p.maximum_delay_seconds scaled) factor))

    module _ {W : Type 0} (emit : ReconciliationOperationalAlert → W → Result (Unit {0}) × W) where
      -- What follows the delay of the next query.
      unfoldable pub advance_delayed :
          BoundedReconciliationPolicy
          → ReconciliationDecision
          → ReconciliationScheduleState
          → F
          → String
          → F
          → W
          → Result ReconciliationScheduleDecision × W
      advance_delayed p d q now operation_ref delay w =
          let queries = q.queries_used + 1 in
          let exhausted = leb q.maximum_queries queries in
          let late = lt q.deadline (add (add now delay) p.minimum_query_window_seconds) in
          let conflict = d.kind == evidence_conflict in
          if exhausted || late || conflict
          then (let (sent, w') = emit (alert_of operation_ref conflict exhausted queries) w in
              (
                do
                  sent
                  q' ← check_schedule_state (record q {
                    queries_used = queries;
                    next_query_at = none;
                    alert_emitted = true;
                  })
                  ok (scheduled operational_alert_required q'),
                w',
              ))
          else (
            do
              q' ←
                  check_schedule_state
                    (record q { queries_used = queries; next_query_at = some (add now delay) })
              ok (scheduled next_query_scheduled q'),
            w,
          )

      -- What follows the tests on the decision: a delay that cannot be computed raises.
      advance_query :
          Result F
          → BoundedReconciliationPolicy
          → ReconciliationDecision
          → ReconciliationScheduleState
          → F
          → String
          → W
          → Result ReconciliationScheduleDecision × W
      advance_query (raised e) p d q now operation_ref w = (raised e, w)
      advance_query (ok delay) p d q now operation_ref w =
          advance_delayed p d q now operation_ref delay w

      unfoldable pub advance :
          BoundedReconciliationPolicy
          → ReconciliationDecision
          → ReconciliationScheduleState
          → F
          → String
          → W
          → Result ReconciliationScheduleDecision × W
      unfolding advance_query
      advance p d q now operation_ref w =
          if not (is_finite now)
          then (raised (value_error "reconciliation clock must be finite"), w)
          else if not (same_binding d.binding q.binding)
          then (raised (value_error "reconciliation schedule binding mismatch"), w)
          else if is_resolved d.kind
          then (
            do
              q' ← check_schedule_state (record q { next_query_at = none })
              ok (scheduled resolution_ready q'),
            w,
          )
          else if q.alert_emitted
          then (ok (scheduled already_alerted q), w)
          else advance_query (query_delay p q.binding.operation_id (q.queries_used + 1)) p d q now
              operation_ref w
