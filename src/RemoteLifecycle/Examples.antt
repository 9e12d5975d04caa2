-- ===== src/RemoteLifecycle/Examples.antt =====
-- A stage of a remote call with 400 milliseconds left of the operation's budget, and a call that its
-- caller cancels after it may have been sent.
use ai_backend_engineer_hand.Prelude.{◌≡◌, refl, true, ok, pos, String_discrete, milliseconds}
use ai_backend_engineer_hand.RemoteLifecycle.{
  possibly_sent, DispatchCertainty-discrete, ExecutionCertainty-discrete, possibly_executed,
  cancellation, caller_cancelled, number, FailureEvidence, check_evidence, CancellationObservation,
  cancellation_failure_evidence,
}
use ai_backend_engineer_hand.RemoteLifecycle.Deadline.{DeadlineBudget, remaining, stage_timeout}

abbrev budget : DeadlineBudget milliseconds
budget = record { deadline = 5000; cleanup_reserve_seconds = 100 }

cut_short : stage_timeout milliseconds budget 4500 1000 ≡ ok 400
unfolding stage_timeout remaining
cut_short = refl

abbrev cancelled : CancellationObservation
cancelled = record {
  operation_id = "operation";
  idempotency_key = "key";
  protocol_request_id = number (pos 1);
  attempt_number = 1;
  dispatch_certainty = possibly_sent;
  remote_task_cancelled = true;
  evidence_source = "caller";
}

abbrev evidence : FailureEvidence
evidence = record {
  operation_id = "operation";
  idempotency_key = "key";
  protocol_request_id = number (pos 1);
  attempt_number = 1;
  phase = cancellation;
  kind = caller_cancelled;
  dispatch_certainty = possibly_sent;
  execution_certainty = possibly_executed;
  evidence_source = "caller";
}

cancelled_evidence : cancellation_failure_evidence cancelled ≡ ok evidence
unfolding cancellation_failure_evidence check_evidence String_discrete DispatchCertainty-discrete
    ExecutionCertainty-discrete
cancelled_evidence = refl
