-- ===== src/ProviderResilience/Deferrals.antt =====
-- What `evaluate_dispatch` does to the job
-- (projects/ai-backend-data-layer/api/day56_provider_resilience.py), whatever other workers do in the
-- meantime.
use ai_backend_engineer_hand.Prelude.{
  String_discrete, ℕ, String, ◌+◌, ◌≡◌, refl, ap, ◌∙◌, ok-injective, ◌≢◌, Bool, true, false, not,
  none, some, Result, ok, Result-cases, ◌==◌, inl, inr, string_eq, leb, ltb, prefixed, Float, Clock,
  arith, if◌then◌else◌,
}
use ai_backend_engineer_hand.ProviderResilience.Delays.{compute_next_attempt_at}
use ai_backend_engineer_hand.ProviderResilience.Limiter.{try_acquire}
use ai_backend_engineer_hand.ProviderResilience.Circuit.{
  CircuitState, open_circuit, half_open, circuit_state_eq, state_of, has_probe_capacity,
  try_acquire_probe,
}
use ai_backend_engineer_hand.ProviderResilience.Jobs.{
  deferred, expired, terminal_for_intent, intent_value, DeferRecord, Job, circuit_key,
  is_terminal_status, has_evidence,
}
use ai_backend_engineer_hand.ProviderResilience.Ledger.{has_reservation}
use ai_backend_engineer_hand.ProviderResilience.Dispatch.{
  outcome, ended, call, reconcile, noop, defer_call, DispatchDecision, Shared, defer_job, deferring,
  take_probe, check_funding, take_permit, check_circuit, evaluate_dispatch,
}

module _ (float : Float) (clock : Clock float) where
  -- The job before and after a decision. A deferral counts itself, is recorded with the time it names,
  -- which is not after the deadline, and leaves the retries that were executed and the money alone;
  -- another decision changes nothing of the job.
  pub record IsRecorded (job : Job float) (d : DispatchDecision) (job' : Job float) : Type 0 where
    pub counted : d.action ≡ defer_call → job'.defer_count ≡ job.defer_count + 1
    pub moved : d.action ≡ defer_call → job'.status ≡ deferred
    pub kept :
        d.action ≡ defer_call
        → (job'.execution_retry_count ≡ job.execution_retry_count)
          × (job'.reserved_cost ≡ job.reserved_cost)
          × (job'.cost_state ≡ job.cost_state)
          × (job'.contract ≡ job.contract)
    pub noted :
        d.action ≡ defer_call
        → (note : DeferRecord) × (job'.defer ≡ some note)
          × (d.next_attempt_at ≡ some note.next_attempt_at)
          × (note.retry_reason ≡ d.reason)
          × (leb note.next_attempt_at job.deadline ≡ true)
    -- The reason is none that an expiry has.
    pub named : d.action ≡ defer_call → d.reason ≢ "defer_deadline_expired"
    pub untouched : d.action ≢ defer_call → job' ≡ job

  unlike :
      (reason : String)
      → (reason == "defer_deadline_expired") ≡ false
      → reason ≢ "defer_deadline_expired"
  unlike reason h e = ground arith

  defer_job-IsRecorded :
      (job : Job float) (reason : String) (now : ℕ) (rand : ℕ → float.F) (d : DispatchDecision)
      → reason ≢ "defer_deadline_expired"
      → (defer_job float clock job reason now rand).0 ≡ ok d
      → IsRecorded job d (defer_job float clock job reason now rand).1
  unfolding defer_job
  defer_job-IsRecorded job reason now rand d n h =
      elim (Result-cases
        (compute_next_attempt_at float clock now (job.defer_count + 1) none none rand)) [
          | inr (error, e) ↦ ground arith
          | inl (planned, e) ↦ record {
            counted = ground arith;
            moved = ground arith;
            kept = ground arith;
            noted = λ a. (
              record {
                retry_reason = reason;
                next_attempt_at = if ltb job.deadline planned then job.deadline else planned;
                defer_count = job.defer_count + 1;
                deadline = job.deadline;
              },
              ground arith,
              ground arith,
              ground arith,
              ground arith,
            );
            named = ground arith;
            untouched = ground arith;
          }
        ]

  -- The decisions among the answers.
  Records : Job float → Result DispatchDecision × Job float × Shared float clock → Type 0
  Records job r = (d : DispatchDecision) → r.0 ≡ ok d → IsRecorded job d r.1

  decided-Records :
      (job : Job float) (d : DispatchDecision) (s : Shared float clock)
      → d.action ≢ defer_call
      → Records job (ok d, job, s)
  unfolding Records
  decided-Records job d s n e h = record {
    counted = ground arith;
    moved = ground arith;
    kept = ground arith;
    noted = λ a. elim (n (ap (λ x. x.action) (ok-injective h) ∙ a)) [ ];
    named = λ a. elim (n (ap (λ x. x.action) (ok-injective h) ∙ a)) [ ];
    untouched = λ a. refl;
  }

  if-Records :
      (b : Bool) (job : Job float) (x y : Result DispatchDecision × Job float × Shared float clock)
      → Records job x
      → Records job y
      → Records job (if b then x else y)
  if-Records true job x y holds_x holds_y = holds_x
  if-Records false job x y holds_x holds_y = holds_y

  module _ (others : ℕ → Shared float clock → Shared float clock) (now : ℕ)
      (rand : ℕ → float.F) where
    deferring-Records :
        (job : Job float) (reason : String) (s : Shared float clock)
        → reason ≢ "defer_deadline_expired"
        → Records job (deferring float clock others now rand job reason s)
    unfolding Records
    deferring-Records job reason s n d h = defer_job-IsRecorded job reason now rand d n h

    take_probe-Records :
        (cstate : CircuitState) (permit : Bool) (job : Job float) (s : Shared float clock)
        → Records job (take_probe float clock others now rand cstate permit job s)
    unfolding take_probe String_discrete
    take_probe-Records cstate permit job s =
        let probed = try_acquire_probe (circuit_key float job.contract) (others 5 s).circuit in
        if-Records (cstate == half_open) job _ _
          (if-Records probed.0 job _ _
            (decided-Records job (outcome call "all_gates_passed") _ λ e. cc)
            (deferring-Records job "circuit_half_open_no_probe_slot" _
              (unlike "circuit_half_open_no_probe_slot" refl)))
          (decided-Records job (outcome call "all_gates_passed") s λ e. cc)

    check_funding-Records :
        (cstate : CircuitState) (permit : Bool) (job : Job float) (s : Shared float clock)
        → Records job (check_funding float clock others now rand cstate permit job s)
    unfolding check_funding String_discrete
    check_funding-Records cstate permit job s =
        if-Records (not (has_reservation float job (others 4 s).ledger)) job _ _
          (deferring-Records job "no_cost_reservation" _ (unlike "no_cost_reservation" refl))
          (take_probe-Records cstate permit job (others 4 s))

    take_permit-Records :
        (fail_open : Bool) (cstate : CircuitState) (job : Job float) (s : Shared float clock)
        → Records job (take_permit float clock others now rand fail_open cstate job s)
    unfolding take_permit String_discrete
    take_permit-Records fail_open cstate job s =
        let seen = others 2 s in
        if-Records seen.limiter.available job _ _
          (if-Records (not (try_acquire (others 3 seen).limiter).0) job _ _
            (deferring-Records job "no_rate_capacity" _ (unlike "no_rate_capacity" refl))
            (check_funding-Records cstate true job _))
          (if-Records (not fail_open) job _ _
            (deferring-Records job "limiter_unavailable_fail_closed" seen
              (unlike "limiter_unavailable_fail_closed" refl))
            (check_funding-Records cstate false job seen))

    check_circuit-Records :
        (fail_open : Bool) (job : Job float) (s : Shared float clock)
        → Records job (check_circuit float clock others now rand fail_open job s)
    unfolding check_circuit String_discrete
    check_circuit-Records fail_open job s =
        let key = circuit_key float job.contract in
        let seen = others 0 s in
        let cstate = state_of key seen.circuit in
        if-Records (cstate == open_circuit) job _ _
          (deferring-Records job "circuit_open" seen (unlike "circuit_open" refl))
          (if-Records (cstate == half_open) job _ _
            (if-Records (not (has_probe_capacity key (others 1 seen).circuit)) job _ _
              (deferring-Records job "circuit_half_open_no_probe_slot" _
                (unlike "circuit_half_open_no_probe_slot" refl))
              (take_permit-Records fail_open cstate job _))
            (take_permit-Records fail_open cstate job seen))

    undecided-Records :
        (fail_open : Bool) (job : Job float) (s : Shared float clock)
        → Records job (
            if has_evidence job.attempt
            then (ok (outcome reconcile "provider_execution_evidence"), job, s)
            else if leb job.deadline now
            then (ok (ended expired "defer_deadline_expired"), job, s)
            else check_circuit float clock others now rand fail_open job s)
    undecided-Records fail_open job s =
        if-Records (has_evidence job.attempt) job _ _
          (decided-Records job (outcome reconcile "provider_execution_evidence") s λ e. cc)
          (if-Records (leb job.deadline now) job _ _
            (decided-Records job (ended expired "defer_deadline_expired") s λ e. cc)
            (check_circuit-Records fail_open job s))

    evaluate-Records :
        (fail_open : Bool) (job : Job float) (s : Shared float clock)
        → Records job (evaluate_dispatch float clock others now rand fail_open job s)
    unfolding evaluate_dispatch
    evaluate-Records fail_open job s =
        if-Records (is_terminal_status job.status) job _ _
          (decided-Records job (outcome noop "already_terminal") s λ e. cc)
          (elim job.intent_kind
            as (λ intent. Records job (elim intent [
              | some kind ↦ (
                ok (
                    ended (terminal_for_intent kind)
                      (prefixed "durable_intent:" (intent_value kind))),
                job,
                s,
              )
              | none ↦
                  if has_evidence job.attempt
                  then (ok (outcome reconcile "provider_execution_evidence"), job, s)
                  else if leb job.deadline now
                  then (ok (ended expired "defer_deadline_expired"), job, s)
                  else check_circuit float clock others now rand fail_open job s
            ])) [
              | some kind ↦ decided-Records job _ s λ e. cc
              | none ↦ undecided-Records fail_open job s
            ])

    -- Whatever other workers do in the meantime, an answer that defers counts one deferral and
    -- records its reason and its time, which is not after the deadline, and leaves retries, money
    -- and contract alone; every other answer leaves the job unchanged.
    pub evaluate_dispatch-IsRecorded :
        (fail_open : Bool) (job : Job float) (s : Shared float clock) (d : DispatchDecision)
        → let (answer, job', s') = evaluate_dispatch float clock others now rand fail_open job s in
          answer ≡ ok d → IsRecorded job d job'
    unfolding Records
    evaluate_dispatch-IsRecorded fail_open job s d h = evaluate-Records fail_open job s d h
