-- ===== src/Reconciliation/Schedules.antt =====
-- What the schedule of observations promises: it never raises within its budget, and it alerts once.
use ai_backend_engineer_hand.Prelude.{
  ℕ, String, ◌+◌, ◌≤◌, ◌<◌, ◌≡◌, refl, ◌⊎◌, inl, inr, true, false, List, [], ◌∷◌, Result, ok,
  raised, Result-cases, is_ok, ◌==◌, leb, Sha256, Float, arith, string_eq,
}
use ai_backend_engineer_hand.Reconciliation.Types.{
  evidence_conflict, reconciliation_kind_eq, ReconciliationDecision, same_binding,
}
use ai_backend_engineer_hand.Reconciliation.Schedule.{
  ReconciliationScheduleOutcome, alert_of, operational_alert_required,
  ReconciliationOperationalAlert, ReconciliationScheduleState, check_schedule_state,
  ReconciliationScheduleDecision, BoundedReconciliationPolicy, query_delay, advance_delayed,
  advance,
}

abbrev pub alerted : ReconciliationScheduleOutcome → ℕ
alerted operational_alert_required = 1
alerted _ = 0

module _ (float : Float) ⦃sha : Sha256⦄ {W : Type 0}
    (emit : ReconciliationOperationalAlert → W → Result (Unit {0}) × W) where
  open float use {F, is_finite}

  -- A schedule that passes its checks, and has a query left unless it has alerted.
  pub record IsReady (q : ReconciliationScheduleState float) : Type 0 where
    pub checked : check_schedule_state float q ≡ ok q
    pub left : (q.alert_emitted ≡ true) ⊎ (q.queries_used < q.maximum_queries)

  -- What an answer makes of a ready schedule.
  pub record Advances (q : ReconciliationScheduleState float)
      (a : ReconciliationScheduleDecision float) : Type 0 where
    pub ready : IsReady a.state
    pub alerts :
        a.outcome ≡ operational_alert_required
        → (q.alert_emitted ≡ false) × (a.state.alert_emitted ≡ true)
    pub stays : q.alert_emitted ≡ true → a.state.alert_emitted ≡ true

  advance_delayed-Advances :
      (p : BoundedReconciliationPolicy float) (d : ReconciliationDecision)
      (q : ReconciliationScheduleState float) (now : F) (ref : String) (delay : F) (w : W)
      (a : ReconciliationScheduleDecision float)
      → IsReady q
      → q.alert_emitted ≡ false
      → (advance_delayed float emit p d q now ref delay w).0 ≡ ok a
      → Advances q a
  unfolding advance_delayed check_schedule_state
  advance_delayed-Advances p d q now ref delay w a ready quiet h = ground arith

  -- An answer of a ready schedule leaves it ready; it alerts only if it had not, and then it has.
  pub advance-Advances :
      (p : BoundedReconciliationPolicy float) (d : ReconciliationDecision)
      (q : ReconciliationScheduleState float) (now : F) (ref : String) (w : W)
      (a : ReconciliationScheduleDecision float)
      → IsReady q
      → (advance float emit p d q now ref w).0 ≡ ok a
      → Advances q a
  unfolding advance check_schedule_state
  advance-Advances p d q now ref w a ready h =
      elim (Result-cases (query_delay float p q.binding.operation_id (q.queries_used + 1))) [
        | inl (delay, same) ↦ ground (arith, advance_delayed-Advances p d q now ref delay w a ready)
        | inr (e, failed) ↦ ground arith
      ]

  -- A ready schedule answers: with a finite clock, its own binding, a delay that is computed and a port
  -- that does not raise, no exception is possible.
  pub advance-is_ok :
      (p : BoundedReconciliationPolicy float) (d : ReconciliationDecision)
      (q : ReconciliationScheduleState float) (now delay : F) (ref : String) (w : W)
      → IsReady q
      → is_finite now ≡ true
      → same_binding d.binding q.binding ≡ true
      → query_delay float p q.binding.operation_id (q.queries_used + 1) ≡ ok delay
      → ((alert : ReconciliationOperationalAlert) (v : W) → is_ok (emit alert v).0 ≡ true)
      → is_ok (advance float emit p d q now ref w).0 ≡ true
  unfolding advance advance_delayed check_schedule_state
  advance-is_ok p d q now delay ref w ready finite same delayed sends =
      let queries = q.queries_used + 1 in
      ground (
        arith,
        sends (alert_of ref (d.kind == evidence_conflict) (leb q.maximum_queries queries) queries)
            w,
      )

  -- The alerts of a sequence of observations; a call that raises leaves the schedule as it was.
  pub alert_count :
      BoundedReconciliationPolicy float
      → List (ReconciliationDecision × F × String)
      → ReconciliationScheduleState float
      → W
      → ℕ
  alert_count p [] q w = 0
  alert_count p ((d, now, ref) ∷ rest) q w =
      let (answer, w') = advance float emit p d q now ref w in
      elim answer [
        | raised e ↦ alert_count p rest q w'
        | ok a ↦ alerted a.outcome + alert_count p rest a.state w'
      ]

  alert_count-alerted :
      (p : BoundedReconciliationPolicy float) (ds : List (ReconciliationDecision × F × String))
      (q : ReconciliationScheduleState float) (w : W)
      → IsReady q
      → q.alert_emitted ≡ true
      → alert_count p ds q w ≡ 0
  unfolding alert_count
  alert_count-alerted p [] q w ready done = refl
  alert_count-alerted p ((d, now, ref) ∷ rest) q w ready done =
      let (answer, w') = advance float emit p d q now ref w in
      elim (Result-cases (advance float emit p d q now ref w).0) [
        | inr (e, failed) ↦ ground (arith, alert_count-alerted p rest q w' ready done)
        | inl (a, returned) ↦
            let after = advance-Advances p d q now ref w a ready returned in
            ground
              (arith, alert_count-alerted p rest a.state w' after.ready (after.stays done), after)
      ]

  -- Over any sequence of observations from a schedule that passes its checks, and that has alerted
  -- or has a query left, at most one answer asks for an operational alert.
  alert_count-le-one :
      (p : BoundedReconciliationPolicy float) (ds : List (ReconciliationDecision × F × String))
      (q : ReconciliationScheduleState float) (w : W)
      → IsReady q
      → alert_count p ds q w ≤ 1
  unfolding alert_count
  alert_count-le-one p [] q w ready = omega arith
  alert_count-le-one p ((d, now, ref) ∷ rest) q w ready =
      let (answer, w') = advance float emit p d q now ref w in
      elim (Result-cases (advance float emit p d q now ref w).0) [
        | inr (e, failed) ↦ ground (arith, alert_count-le-one p rest q w' ready)
        | inl (a, returned) ↦
            let after = advance-Advances p d q now ref w a ready returned in
            ground (
              arith,
              alert_count-le-one p rest a.state w' after.ready,
              alert_count-alerted p rest a.state w' after.ready,
              after.alerts,
            )
      ]
