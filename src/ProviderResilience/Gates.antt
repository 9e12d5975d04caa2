-- ===== src/ProviderResilience/Gates.antt =====
-- When `evaluate_dispatch` lets a worker call the provider
-- (projects/ai-backend-data-layer/api/day56_provider_resilience.py), and what it takes for that, if no
-- other worker interferes.
use ai_backend_engineer_hand.Prelude.{
  ℕ, String, ◌+◌, ◌≡◌, ◌≢◌, ◌↔◌, Bool, true, false, none, ok, Result-cases, string_eq, inl, inr,
  leb, Float, Clock, arith,
}
use ai_backend_engineer_hand.ProviderResilience.Delays.{compute_next_attempt_at}
use ai_backend_engineer_hand.ProviderResilience.Limiter.{SharedRateLimiter, try_acquire, release}
use ai_backend_engineer_hand.ProviderResilience.Circuit.{
  CircuitState, open_circuit, half_open, circuit_state_eq, CircuitBreaker, state_of,
  has_probe_capacity, try_acquire_probe,
}
use ai_backend_engineer_hand.ProviderResilience.Jobs.{
  Job, circuit_key, is_terminal_status, has_evidence,
}
use ai_backend_engineer_hand.ProviderResilience.Ledger.{has_reservation}
use ai_backend_engineer_hand.ProviderResilience.Dispatch.{
  outcome, call, DispatchDecision, Shared, defer_job, give_back, take_probe, check_funding,
  take_permit, check_circuit, evaluate_dispatch,
}

abbrev pub passed : DispatchDecision
passed = outcome call "all_gates_passed"

-- A probe is taken exactly if there is room for one; of a circuit that is not half-open nothing is.
probe_facts :
    (key : String) (c : CircuitBreaker)
    → ((try_acquire_probe key c).0 ≡ has_probe_capacity key c)
      × ((try_acquire_probe key c).0 ≡ false → (try_acquire_probe key c).1 ≡ c)
      × (state_of key c ≢ half_open → (try_acquire_probe key c).1 ≡ c)
unfolding try_acquire_probe has_probe_capacity state_of
probe_facts key c = (ground arith, ground arith, ground arith)

-- A permit that is given back leaves the limiter as it was.
permit_facts :
    (l : SharedRateLimiter)
    → ((try_acquire l).0 ≡ true → release (try_acquire l).1 ≡ l)
      × ((try_acquire l).0 ≡ false → (try_acquire l).1 ≡ l)
      × ((try_acquire l).0 ≡ true → l.available ≡ true)
unfolding try_acquire release
permit_facts l = (ground arith, ground arith, ground arith)

module _ (float : Float) (clock : Clock float) where
  -- No other worker runs in between.
  abbrev pub quiet : ℕ → Shared float clock → Shared float clock
  quiet n s = s

  -- What a call needs.
  pub record MayCall (job : Job float) (fail_open : Bool) (now : ℕ) (s : Shared float clock)
      : Type 0 where
    pub live : is_terminal_status job.status ≡ false
    pub wanted : job.intent_kind ≡ none
    pub unsent : has_evidence job.attempt ≡ false
    pub in_time : leb job.deadline now ≡ false
    pub healthy : state_of (circuit_key float job.contract) s.circuit ≢ open_circuit
    pub probed :
        state_of (circuit_key float job.contract) s.circuit ≡ half_open
        → has_probe_capacity (circuit_key float job.contract) s.circuit ≡ true
    pub permitted : s.limiter.available ≡ true → (try_acquire s.limiter).0 ≡ true
    pub failed_open : s.limiter.available ≡ false → fail_open ≡ true
    pub funded : has_reservation float job s.ledger ≡ true

  module _ (now : ℕ) (rand : ℕ → float.F) where
    defer_job-ne_passed :
        (job : Job float) (reason : String)
        → (defer_job float clock job reason now rand).0 ≢ ok passed
    unfolding defer_job
    defer_job-ne_passed job reason h =
        elim (Result-cases
          (compute_next_attempt_at float clock now (job.defer_count + 1) none none rand)) [
            | inr (error, e) ↦ ground arith
            | inl (planned, e) ↦ ground arith
          ]

    take_probe-call :
        (cstate : CircuitState) (permit : Bool) (job : Job float) (s : Shared float clock)
        → let key = circuit_key float job.contract in
          let (answer, job', s') = take_probe float clock quiet now rand cstate permit job s in
          ((answer ≡ ok passed) ↔ (cstate ≡ half_open → has_probe_capacity key s.circuit ≡ true))
          × ((answer ≢ ok passed) → s' ≡ give_back float clock quiet now rand permit s)
          × ((answer ≡ ok passed)
              → (s'.ledger ≡ s.ledger)
                × (s'.limiter ≡ s.limiter)
                × (cstate ≡ state_of key s.circuit
                    → s'.circuit ≡ (try_acquire_probe key s.circuit).1))
    unfolding take_probe
    take_probe-call cstate permit job s =
        let key = circuit_key float job.contract in
        ground (
          arith,
          probe_facts key s.circuit,
          defer_job-ne_passed job "circuit_half_open_no_probe_slot",
        )

    check_funding-call :
        (cstate : CircuitState) (permit : Bool) (job : Job float) (s : Shared float clock)
        → let key = circuit_key float job.contract in
          let (answer, job', s') = check_funding float clock quiet now rand cstate permit job s in
          ((answer ≡ ok passed) ↔ (
            (has_reservation float job s.ledger ≡ true)
            × (cstate ≡ half_open → has_probe_capacity key s.circuit ≡ true)))
          × ((answer ≢ ok passed) → s' ≡ give_back float clock quiet now rand permit s)
          × ((answer ≡ ok passed)
              → (s'.ledger ≡ s.ledger)
                × (s'.limiter ≡ s.limiter)
                × (cstate ≡ state_of key s.circuit
                    → s'.circuit ≡ (try_acquire_probe key s.circuit).1))
    unfolding check_funding
    check_funding-call cstate permit job s =
        ground (
          arith,
          take_probe-call cstate permit job s,
          defer_job-ne_passed job "no_cost_reservation",
        )

    take_permit-call :
        (fail_open : Bool) (cstate : CircuitState) (job : Job float) (s : Shared float clock)
        → let key = circuit_key float job.contract in
          let (answer, job', s') = take_permit float clock quiet now rand fail_open cstate job s in
          ((answer ≡ ok passed) ↔ (
            (s.limiter.available ≡ true → (try_acquire s.limiter).0 ≡ true)
            × (s.limiter.available ≡ false → fail_open ≡ true)
            × (has_reservation float job s.ledger ≡ true)
            × (cstate ≡ half_open → has_probe_capacity key s.circuit ≡ true)))
          × ((answer ≢ ok passed) → s' ≡ s)
          × ((answer ≡ ok passed)
              → (s'.ledger ≡ s.ledger)
                × (s'.limiter ≡ (try_acquire s.limiter).1)
                × (cstate ≡ state_of key s.circuit
                    → s'.circuit ≡ (try_acquire_probe key s.circuit).1))
    unfolding take_permit give_back
    take_permit-call fail_open cstate job s =
        let after = record s { limiter = (try_acquire s.limiter).1 } in
        ground (
          arith,
          check_funding-call cstate true job after,
          check_funding-call cstate false job s,
          permit_facts s.limiter,
          defer_job-ne_passed job "no_rate_capacity",
          defer_job-ne_passed job "limiter_unavailable_fail_closed",
        )

    check_circuit-call :
        (fail_open : Bool) (job : Job float) (s : Shared float clock)
        → let key = circuit_key float job.contract in
          let (answer, job', s') = check_circuit float clock quiet now rand fail_open job s in
          ((answer ≡ ok passed) ↔ (
            (state_of key s.circuit ≢ open_circuit)
            × (s.limiter.available ≡ true → (try_acquire s.limiter).0 ≡ true)
            × (s.limiter.available ≡ false → fail_open ≡ true)
            × (has_reservation float job s.ledger ≡ true)
            × (state_of key s.circuit ≡ half_open → has_probe_capacity key s.circuit ≡ true)))
          × ((answer ≢ ok passed) → s' ≡ s)
          × ((answer ≡ ok passed)
              → (s'.ledger ≡ s.ledger)
                × (s'.limiter ≡ (try_acquire s.limiter).1)
                × (s'.circuit ≡ (try_acquire_probe key s.circuit).1))
    unfolding check_circuit
    check_circuit-call fail_open job s =
        let key = circuit_key float job.contract in
        ground (
          arith,
          take_permit-call fail_open (state_of key s.circuit) job s,
          defer_job-ne_passed job "circuit_open",
          defer_job-ne_passed job "circuit_half_open_no_probe_slot",
        )

    -- If no other worker interferes, an evaluation lets the worker call the provider exactly if the
    -- job is live, has no intent to end, no evidence of an execution and time left, the circuit is
    -- not open and has room for a probe if it is half-open, there is a permit or, in an outage, the
    -- explicit policy to fail open, and a reservation. A call takes the permit and the probe; every
    -- other answer, a raised error included, leaves limiter, ledger and circuit as they were.
    pub evaluate_dispatch-call_iff :
        (fail_open : Bool) (job : Job float) (s : Shared float clock)
        → let key = circuit_key float job.contract in
          let (answer, job', s') = evaluate_dispatch float clock quiet now rand fail_open job s in
          ((answer ≡ ok passed) ↔ MayCall job fail_open now s)
          × ((answer ≢ ok passed) → s' ≡ s)
          × ((answer ≡ ok passed)
              → (s'.ledger ≡ s.ledger)
                × (s'.limiter ≡ (try_acquire s.limiter).1)
                × (s'.circuit ≡ (try_acquire_probe key s.circuit).1))
    unfolding evaluate_dispatch
    evaluate_dispatch-call_iff fail_open job s =
        let gates = check_circuit-call fail_open job s in
        (
          (
            λ h. record {
              live = ground (arith, gates, h);
              wanted = ground (arith, gates, h);
              unsent = ground (arith, gates, h);
              in_time = ground (arith, gates, h);
              healthy = ground (arith, gates, h);
              probed = ground (arith, gates, h);
              permitted = ground (arith, gates, h);
              failed_open = ground (arith, gates, h);
              funded = ground (arith, gates, h);
            },
            λ m. ground (
              arith, gates, m.live, m.wanted, m.unsent, m.in_time, m.healthy, m.probed, m.permitted,
              m.failed_open, m.funded,
            ),
          ),
          ground (arith, gates),
          ground (arith, gates),
        )
