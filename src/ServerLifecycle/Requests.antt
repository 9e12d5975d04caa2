-- ===== src/ServerLifecycle/Requests.antt =====
-- Admission and completion of requests.
use ai_backend_engineer_hand.Prelude.{
  String, ◌≡◌, ◌≢◌, ◌↔◌, true, false, string_eq, is_in, all_distinct, ok, arith,
}
use ai_backend_engineer_hand.ServerLifecycle.{
  accepting, admitted, shutdown_rejected, ServerLifecycle, begin_request, complete_request,
}
use ai_backend_engineer_hand.ServerLifecycle.Sets.{is_in-remove}

-- A request is admitted exactly while the server accepts and its operation is not in flight; then it
-- is in flight. While the server accepts, a second request of an operation in flight raises, and once
-- it does not accept every request is rejected; neither changes anything.
pub begin_request_facts :
    (id : String) (l : ServerLifecycle)
    → let (answer, l') = begin_request id l in
      ((answer ≡ ok (record { outcome = admitted; operation_id = id }))
        ↔ ((l.state ≡ accepting) × (is_in id l.in_flight ≡ false)))
      × ((answer ≡ ok (record { outcome = shutdown_rejected; operation_id = id }))
          ↔ (l.state ≢ accepting))
      × ((answer ≡ ok (record { outcome = admitted; operation_id = id }))
          → is_in id l'.in_flight ≡ true)
      × ((answer ≢ ok (record { outcome = admitted; operation_id = id })) → l' ≡ l)
unfolding begin_request
begin_request_facts id l = ground arith

-- A request completes exactly if it is in flight and not pending reconciliation; then it alone
-- leaves, and completing it again fails.
pub complete_request_facts :
    (id : String) (l : ServerLifecycle)
    → all_distinct l.in_flight ≡ true
    → let (done, l') = complete_request id l in
      ((done ≡ true) ↔ ((is_in id l.in_flight ≡ true) × (is_in id l.pending ≡ false)))
      × ((done ≡ true) → (complete_request id l').0 ≡ false)
      × ((done ≡ false) → l' ≡ l)
      × (l'.pending ≡ l.pending)
      × (l'.state ≡ l.state)
unfolding complete_request
complete_request_facts id l h = ground (arith, is_in-remove id id l.in_flight h)

pub complete_request-others :
    (id j : String) (l : ServerLifecycle)
    → all_distinct l.in_flight ≡ true
    → j ≢ id
    → is_in j (complete_request id l).1.in_flight ≡ is_in j l.in_flight
unfolding complete_request
complete_request-others id j l h n = ground (arith, is_in-remove j id l.in_flight h)
