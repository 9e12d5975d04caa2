-- ===== src/ServerLifecycle/Drain.antt =====
-- What the lifecycle promises over every sequence of calls: no admission after shutdown began, and no
-- admitted operation is lost by it.
use ai_backend_engineer_hand.Prelude.{
  String, ◌≡◌, refl, ◌≢◌, ◌↔◌, true, false, List, [], ◌∷◌, string_eq, is_in, sorted, sorted-perm,
  Result, ok, arith,
}
use mathlib.Core.List.{Perm}
use ai_backend_engineer_hand.ServerLifecycle.{
  accepting, draining, stopped, shutdown_rejected, DrainReport, clean, ServerLifecycle,
  begin_request, complete_request, start_shutdown, finish_clean_drain, expire_drain_timeout,
}
use ai_backend_engineer_hand.ServerLifecycle.Sets.{is_in-union, is_in-sorted}
use ai_backend_engineer_hand.ServerLifecycle.Validity.{
  IsValid, begin_request-IsValid, complete_request-IsValid, start_shutdown-IsValid,
  finish_clean_drain-IsValid, expire_drain_timeout-IsValid,
}

-- The ports are parameters: nothing is assumed of them, and they may raise.
module _ {W : Type 0} (cancel mark_pending : String → W → Result (Unit {0}) × W) where
  -- One call, its answer left aside.
  pub data Step : ServerLifecycle → ServerLifecycle → Type 0 where
    begin : (id : String) (l : ServerLifecycle) → Step l (begin_request id l).1
    complete : (id : String) (l : ServerLifecycle) → Step l (complete_request id l).1
    shutdown : (l : ServerLifecycle) → Step l (start_shutdown l)
    finish : (l : ServerLifecycle) → Step l (finish_clean_drain l).1
    expire : (l : ServerLifecycle) (w : W) → Step l (expire_drain_timeout cancel mark_pending l w).1

  pub data Reaches (l : ServerLifecycle) : ServerLifecycle → Type 0 where
    here : Reaches l l
    next : {k m : ServerLifecycle} → Reaches l k → Step k m → Reaches l m

  Step-IsValid : {l m : ServerLifecycle} → Step l m → IsValid l → IsValid m
  Step-IsValid (begin id l) v = begin_request-IsValid id l v
  Step-IsValid (complete id l) v = complete_request-IsValid id l v
  Step-IsValid (shutdown l) v = start_shutdown-IsValid l v
  Step-IsValid (finish l) v = finish_clean_drain-IsValid l v
  Step-IsValid (expire l w) v = expire_drain_timeout-IsValid cancel mark_pending l w v

  -- Every server that is reached from a valid one is valid: nothing is in flight twice, nothing is
  -- pending before it is stopped, what is pending is in flight, and what is in flight once it is
  -- stopped is pending.
  pub Reaches-IsValid : {l m : ServerLifecycle} → Reaches l m → IsValid l → IsValid m
  Reaches-IsValid here v = v
  Reaches-IsValid (next r st) v = Step-IsValid st (Reaches-IsValid r v)

  Step-closed : {l m : ServerLifecycle} → Step l m → l.state ≢ accepting → m.state ≢ accepting
  unfolding begin_request complete_request start_shutdown finish_clean_drain expire_drain_timeout
  Step-closed (begin id l) h = ground arith
  Step-closed (complete id l) h = ground arith
  Step-closed (shutdown l) h = ground arith
  Step-closed (finish l) h = ground arith
  Step-closed (expire l w) h = ground arith

  Reaches-closed : {l m : ServerLifecycle} → Reaches l m → l.state ≢ accepting → m.state ≢ accepting
  Reaches-closed here h = h
  Reaches-closed (next r st) h = Step-closed st (Reaches-closed r h)

  started_shutdown : (l : ServerLifecycle) → (start_shutdown l).state ≢ accepting
  unfolding start_shutdown
  started_shutdown l = ground arith

  -- After shutdown has begun, every request is rejected and changes nothing, after any sequence of
  -- calls.
  shutdown_rejects :
      (id : String) (l : ServerLifecycle) {m : ServerLifecycle}
      → Reaches (start_shutdown l) m
      → begin_request id m ≡ (ok (record { outcome = shutdown_rejected; operation_id = id }), m)
  unfolding begin_request
  shutdown_rejects id l r = ground (arith, Reaches-closed r (started_shutdown l))

  Step-pending :
      (id : String) {l m : ServerLifecycle}
      → Step l m
      → is_in id l.pending ≡ true
      → is_in id m.pending ≡ true
  unfolding begin_request complete_request start_shutdown finish_clean_drain expire_drain_timeout
  Step-pending id (begin j l) h = ground arith
  Step-pending id (complete j l) h = ground arith
  Step-pending id (shutdown l) h = ground arith
  Step-pending id (finish l) h = ground arith
  Step-pending id (expire l w) h = ground (arith, is_in-union id l.pending (sorted l.in_flight))

  Reaches-pending :
      (id : String) {l m : ServerLifecycle}
      → Reaches l m
      → is_in id l.pending ≡ true
      → is_in id m.pending ≡ true
  Reaches-pending id here h = h
  Reaches-pending id (next r st) h = Step-pending id st (Reaches-pending id r h)

  -- An operation that is in flight at a draining server whose drain times out is pending after
  -- every sequence of later calls, and a request to complete it fails and changes nothing, also if
  -- a port raised.
  pub timed_out-stays_pending :
      (id : String) (l : ServerLifecycle) (w : W) {m : ServerLifecycle}
      → l.state ≡ draining
      → is_in id l.in_flight ≡ true
      → Reaches (expire_drain_timeout cancel mark_pending l w).1 m
      → (is_in id m.pending ≡ true) × (complete_request id m ≡ (false, m))
  unfolding complete_request expire_drain_timeout
  timed_out-stays_pending id l w {m} d h r =
      let frozen = Reaches-pending id r (
        ground
          (arith, is_in-union id l.pending (sorted l.in_flight), is_in-sorted id l.in_flight)) in
      (frozen, ground arith)

  report_parts :
      (l : ServerLifecycle) (w : W) (r : DrainReport)
      → (expire_drain_timeout cancel mark_pending l w).0 ≡ ok r
      → (r.pending_operation_ids ≡ sorted l.in_flight)
        × (r.committer_calls ≡ 0)
        × ((expire_drain_timeout cancel mark_pending l w).1.state ≡ stopped)
  unfolding expire_drain_timeout
  report_parts l w r h = ground arith

  report_outcome :
      (l : ServerLifecycle) (w : W) (r : DrainReport) (ids : List String)
      → sorted l.in_flight ≡ ids
      → (expire_drain_timeout cancel mark_pending l w).0 ≡ ok r
      → (r.outcome ≡ clean) ↔ (ids ≡ [])
  unfolding expire_drain_timeout
  report_outcome l w r [] s h = ground arith
  report_outcome l w r (id ∷ ids) s h = ground arith

  -- If a timed-out drain returns a report, it names every operation in flight as often as it is
  -- there and no other, is clean exactly if there are none, counts no committer call, and the
  -- server is stopped.
  expire_report :
      (l : ServerLifecycle) (w : W) (r : DrainReport)
      → (expire_drain_timeout cancel mark_pending l w).0 ≡ ok r
      → Perm r.pending_operation_ids l.in_flight
        × ((r.outcome ≡ clean) ↔ (sorted l.in_flight ≡ []))
        × (r.committer_calls ≡ 0)
        × ((expire_drain_timeout cancel mark_pending l w).1.state ≡ stopped)
  expire_report l w r h =
      let (ids, calls, state) = report_parts l w r h in
      (
        rw ids (sorted-perm l.in_flight),
        report_outcome l w r (sorted l.in_flight) refl h,
        calls,
        state,
      )
