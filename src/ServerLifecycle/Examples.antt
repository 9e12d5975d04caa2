-- ===== src/ServerLifecycle/Examples.antt =====
-- A server that is shut down while an operation is in flight, with ports that count their calls.
use ai_backend_engineer_hand.Prelude.{
  ℕ, String, ◌≡◌, refl, false, true, [], ◌∷◌, Result, ok, suc, String_discrete, string_eq, is_in,
  sorted, insert_sorted, text_leb,
}
use ai_backend_engineer_hand.ServerLifecycle.{
  ServerLifecycleState-discrete, draining, pending_reconciliation, DrainReport, ServerLifecycle,
  begin_request, complete_request, new_lifecycle, hand_over, expire_drain_timeout,
}
use ai_backend_engineer_hand.ServerLifecycle.Validity.{IsValid, new_lifecycle-IsValid}
use ai_backend_engineer_hand.ServerLifecycle.Drain.{
  here, next, begin, Reaches-IsValid, timed_out-stays_pending,
}

abbrev count : String → ℕ → Result (Unit {0}) × ℕ
count operation_id calls = (ok tt, suc calls)

abbrev busy : ServerLifecycle
busy = record { state = draining; in_flight = "b" ∷ "a" ∷ []; pending = [] }

Reaches-IsValid_example : IsValid (begin_request "a" new_lifecycle).1
Reaches-IsValid_example =
    Reaches-IsValid count count (next here (begin "a" new_lifecycle)) new_lifecycle-IsValid

timed_out-stays_pending_example :
    let m = (expire_drain_timeout count count busy 0).1 in
    (is_in "a" m.pending ≡ true) × (complete_request "a" m ≡ (false, m))
unfolding String_discrete
timed_out-stays_pending_example = timed_out-stays_pending count count "a" busy 0 refl refl here

abbrev report : DrainReport
report = record {
  outcome = pending_reconciliation;
  pending_operation_ids = "a" ∷ "b" ∷ [];
  committer_calls = 0;
}

report_returned : (expire_drain_timeout count count busy 0).0 ≡ ok report
unfolding expire_drain_timeout hand_over sorted insert_sorted text_leb ServerLifecycleState-discrete
report_returned = refl
