-- ===== src/ServerLifecycle/Validity.antt =====
-- What holds of a server between two calls, and that every operation of `MCPServerLifecycle`
-- (projects/ai-agent/src/mcp_server_lifecycle.py) keeps it.
use ai_backend_engineer_hand.Prelude.{
  String, ◌≡◌, refl, ◌≢◌, true, [], string_eq, is_in, all_distinct, sorted, Result, arith,
}
use ai_backend_engineer_hand.ServerLifecycle.{
  ServerLifecycleState-discrete, draining, stopped, ServerLifecycle, new_lifecycle, begin_request,
  complete_request, start_shutdown, finish_clean_drain, expire_drain_timeout,
}
use ai_backend_engineer_hand.ServerLifecycle.Sets.{
  is_in-remove, all_distinct-remove, is_in-union, is_in-sorted,
}

-- What holds between two calls: no operation is in flight twice; what is pending is in flight; and a
-- server has pending operations only when it is stopped, when all that is in flight is pending.
pub record IsValid (l : ServerLifecycle) : Type 0 where
  pub distinct : all_distinct l.in_flight ≡ true
  pub no_pending : l.state ≢ stopped → l.pending ≡ []
  pub pending_in_flight : (id : String) → is_in id l.pending ≡ true → is_in id l.in_flight ≡ true
  pub stopped_pending :
      l.state ≡ stopped → (id : String) → is_in id l.in_flight ≡ true → is_in id l.pending ≡ true

pub new_lifecycle-IsValid : IsValid new_lifecycle
unfolding new_lifecycle
new_lifecycle-IsValid = record {
  distinct = refl;
  no_pending = λ h. refl;
  pending_in_flight = λ id h. cc;
  stopped_pending = λ e. cc;
}

pub begin_request-IsValid :
    (id : String) (l : ServerLifecycle) → IsValid l → IsValid (begin_request id l).1
unfolding begin_request
begin_request-IsValid id l v = record {
  distinct = ground arith;
  no_pending = ground arith;
  pending_in_flight = λ j h. ground (arith, v.pending_in_flight j);
  stopped_pending = λ e j h. ground (arith, v.stopped_pending (ground arith) j);
}

pub complete_request-IsValid :
    (id : String) (l : ServerLifecycle) → IsValid l → IsValid (complete_request id l).1
unfolding complete_request
complete_request-IsValid id l v = record {
  distinct = ground (arith, all_distinct-remove id l.in_flight v.distinct);
  no_pending = ground arith;
  pending_in_flight =
      λ j h. ground (arith, v.pending_in_flight j, is_in-remove j id l.in_flight v.distinct);
  stopped_pending = λ e j h.
      ground (arith, v.stopped_pending (ground arith) j, is_in-remove j id l.in_flight v.distinct);
}

pub start_shutdown-IsValid : (l : ServerLifecycle) → IsValid l → IsValid (start_shutdown l)
unfolding start_shutdown
start_shutdown-IsValid l v = record {
  distinct = ground arith;
  no_pending = ground arith;
  pending_in_flight = λ j h. ground (arith, v.pending_in_flight j);
  stopped_pending = λ e j h. ground (arith, v.stopped_pending (ground arith) j);
}

none_in_flight :
    (l : ServerLifecycle)
    → l.state ≢ stopped
    → (finish_clean_drain l).1.state ≡ stopped
    → l.in_flight ≡ []
unfolding finish_clean_drain
none_in_flight l n h = ground arith

pub finish_clean_drain-IsValid :
    (l : ServerLifecycle) → IsValid l → IsValid (finish_clean_drain l).1
unfolding finish_clean_drain
finish_clean_drain-IsValid l v = record {
  distinct = ground arith;
  no_pending = ground arith;
  pending_in_flight = λ j h. ground (arith, v.pending_in_flight j);
  stopped_pending = λ e j h. elim (ServerLifecycleState-discrete l.state stopped) [
    | yes s ↦ ground (arith, v.stopped_pending s j)
    | no n ↦ ground arith
  ];
}

-- The ports are parameters: nothing is assumed of them, and they may raise.
module _ {W : Type 0} (cancel mark_pending : String → W → Result (Unit {0}) × W) where
  pub expire_drain_timeout-IsValid :
      (l : ServerLifecycle) (w : W)
      → IsValid l
      → IsValid (expire_drain_timeout cancel mark_pending l w).1
  unfolding expire_drain_timeout
  expire_drain_timeout-IsValid l w v = record {
    distinct = ground arith;
    no_pending = ground arith;
    pending_in_flight = λ j h. ground (
      arith,
      v.pending_in_flight j,
      is_in-union j l.pending (sorted l.in_flight),
      is_in-sorted j l.in_flight,
    );
    stopped_pending = λ e j h. elim (ServerLifecycleState-discrete l.state draining) [
      | yes s ↦
          ground (arith, is_in-union j l.pending (sorted l.in_flight), is_in-sorted j l.in_flight)
      | no n ↦ ground (arith, v.stopped_pending (ground arith) j)
    ];
  }
