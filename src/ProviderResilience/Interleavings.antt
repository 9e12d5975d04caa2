-- ===== src/ProviderResilience/Interleavings.antt =====
-- An evaluation of `evaluate_dispatch`
-- (projects/ai-backend-data-layer/api/day56_provider_resilience.py) among other workers: operations
-- on the shared objects, with those of the others in between.
use ai_backend_engineer_hand.Prelude.{
  ℕ, String, Bool, true, false, not, none, some, Result, ok, ◌==◌, string_eq, leb, prefixed, Float,
  Clock, if◌then◌else◌,
}
use ai_backend_engineer_hand.ProviderResilience.Limiter.{try_acquire}
use ai_backend_engineer_hand.ProviderResilience.Circuit.{
  CircuitState, open_circuit, half_open, circuit_state_eq, state_of, has_probe_capacity,
  try_acquire_probe,
}
use ai_backend_engineer_hand.ProviderResilience.Jobs.{
  expired, terminal_for_intent, intent_value, Job, circuit_key, is_terminal_status, has_evidence,
}
use ai_backend_engineer_hand.ProviderResilience.Ledger.{has_reservation}
use ai_backend_engineer_hand.ProviderResilience.Dispatch.{
  outcome, ended, call, reconcile, noop, DispatchDecision, Shared, deferring, give_back, take_probe,
  check_funding, take_permit, check_circuit, evaluate_dispatch,
}
use ai_backend_engineer_hand.ProviderResilience.Domains.{probe, perform}
use ai_backend_engineer_hand.ProviderResilience.Sharing.{
  IsBounded, acquire, give, circuit, Reaches, here, next, Reaches-trans, Reaches-IsBounded,
}

module _ (float : Float) (clock : Clock float) where
  -- What an evaluation did, as operations.
  Runs : Shared float clock → Result DispatchDecision × Job float × Shared float clock → Type 0
  Runs s r = Reaches float clock s r.2

  if-Runs :
      (b : Bool) (s : Shared float clock)
      (x y : Result DispatchDecision × Job float × Shared float clock)
      → Runs s x
      → Runs s y
      → Runs s (if b then x else y)
  if-Runs true s x y ran_x ran_y = ran_x
  if-Runs false s x y ran_x ran_y = ran_y

  Runs-after :
      {s t : Shared float clock} (r : Result DispatchDecision × Job float × Shared float clock)
      → Reaches float clock s t
      → Runs t r
      → Runs s r
  unfolding Runs
  Runs-after r first rest = Reaches-trans float clock first rest

  Runs-answer :
      {s t : Shared float clock} (answer : Result DispatchDecision) (job : Job float)
      → Reaches float clock s t
      → Runs s (answer, job, t)
  unfolding Runs
  Runs-answer answer job r = r

  module _ (others : ℕ → Shared float clock → Shared float clock) (now : ℕ) (rand : ℕ → float.F)
      (ran : (n : ℕ) (s : Shared float clock) → Reaches float clock s (others n s)) where
    give_back-Reaches :
        (permit : Bool) (s : Shared float clock)
        → Reaches float clock s (give_back float clock others now rand permit s)
    unfolding give_back
    give_back-Reaches true s = next (ran 6 s) (give (others 6 s))
    give_back-Reaches false s = here

    Runs-deferring :
        {s t : Shared float clock} (job : Job float) (reason : String)
        → Reaches float clock s t
        → Runs s (deferring float clock others now rand job reason t)
    unfolding Runs
    Runs-deferring job reason r = r

    probed :
        (key : String) (s : Shared float clock)
        → Reaches float clock s
            (record (others 5 s) { circuit = (try_acquire_probe key (others 5 s).circuit).1 })
    unfolding perform
    probed key s = next (ran 5 s) (circuit probe key (others 5 s))

    acquired :
        (s : Shared float clock)
        → Reaches float clock s
            (record (others 3 s) { limiter = (try_acquire (others 3 s).limiter).1 })
    acquired s = next (ran 3 s) (acquire (others 3 s))

    take_probe-Runs :
        (cstate : CircuitState) (permit : Bool) (job : Job float) (s : Shared float clock)
        → Runs s (take_probe float clock others now rand cstate permit job s)
    unfolding take_probe
    take_probe-Runs cstate permit job s =
        let key = circuit_key float job.contract in
        if-Runs (cstate == half_open) s _ _
          (if-Runs (try_acquire_probe key (others 5 s).circuit).0 s _ _
            (Runs-answer (ok (outcome call "all_gates_passed")) job (probed key s))
            (Runs-deferring job "circuit_half_open_no_probe_slot"
              (Reaches-trans float clock (probed key s) (give_back-Reaches permit _))))
          (Runs-answer (ok (outcome call "all_gates_passed")) job here)

    check_funding-Runs :
        (cstate : CircuitState) (permit : Bool) (job : Job float) (s : Shared float clock)
        → Runs s (check_funding float clock others now rand cstate permit job s)
    unfolding check_funding
    check_funding-Runs cstate permit job s =
        if-Runs (not (has_reservation float job (others 4 s).ledger)) s _ _
          (Runs-deferring job "no_cost_reservation"
            (Reaches-trans float clock (ran 4 s) (give_back-Reaches permit (others 4 s))))
          (Runs-after _ (ran 4 s) (take_probe-Runs cstate permit job (others 4 s)))

    take_permit-Runs :
        (fail_open : Bool) (cstate : CircuitState) (job : Job float) (s : Shared float clock)
        → Runs s (take_permit float clock others now rand fail_open cstate job s)
    unfolding take_permit
    take_permit-Runs fail_open cstate job s =
        let seen = others 2 s in
        let permitted = Reaches-trans float clock (ran 2 s) (acquired seen) in
        if-Runs seen.limiter.available s _ _
          (if-Runs (not (try_acquire (others 3 seen).limiter).0) s _ _
            (Runs-deferring job "no_rate_capacity" permitted)
            (Runs-after _ permitted (check_funding-Runs cstate true job _)))
          (if-Runs (not fail_open) s _ _
            (Runs-deferring job "limiter_unavailable_fail_closed" (ran 2 s))
            (Runs-after _ (ran 2 s) (check_funding-Runs cstate false job seen)))

    check_circuit-Runs :
        (fail_open : Bool) (job : Job float) (s : Shared float clock)
        → Runs s (check_circuit float clock others now rand fail_open job s)
    unfolding check_circuit
    check_circuit-Runs fail_open job s =
        let key = circuit_key float job.contract in
        let seen = others 0 s in
        let cstate = state_of key seen.circuit in
        let watched = Reaches-trans float clock (ran 0 s) (ran 1 seen) in
        if-Runs (cstate == open_circuit) s _ _ (Runs-deferring job "circuit_open" (ran 0 s)) (
          if-Runs (cstate == half_open) s _ _
            (if-Runs (not (has_probe_capacity key (others 1 seen).circuit)) s _ _
              (Runs-deferring job "circuit_half_open_no_probe_slot" watched)
              (Runs-after _ watched (take_permit-Runs fail_open cstate job _)))
            (Runs-after _ (ran 0 s) (take_permit-Runs fail_open cstate job seen)))

    undecided-Runs :
        (fail_open : Bool) (job : Job float) (s : Shared float clock)
        → Runs s (
            if has_evidence job.attempt
            then (ok (outcome reconcile "provider_execution_evidence"), job, s)
            else if leb job.deadline now
            then (ok (ended expired "defer_deadline_expired"), job, s)
            else check_circuit float clock others now rand fail_open job s)
    undecided-Runs fail_open job s =
        if-Runs (has_evidence job.attempt) s _ _
          (Runs-answer (ok (outcome reconcile "provider_execution_evidence")) job here)
          (if-Runs (leb job.deadline now) s _ _
            (Runs-answer (ok (ended expired "defer_deadline_expired")) job here)
            (check_circuit-Runs fail_open job s))

    evaluate-Runs :
        (fail_open : Bool) (job : Job float) (s : Shared float clock)
        → Runs s (evaluate_dispatch float clock others now rand fail_open job s)
    unfolding evaluate_dispatch
    evaluate-Runs fail_open job s =
        if-Runs (is_terminal_status job.status) s _ _
          (Runs-answer (ok (outcome noop "already_terminal")) job here)
          (elim job.intent_kind
            as (λ intent. Runs s (elim intent [
              | some kind ↦ (
                ok (
                    ended (terminal_for_intent kind)
                      (prefixed "durable_intent:" (intent_value kind))),
                job,
                s,
              )
              | none ↦
                  if has_evidence job.attempt
                  then (ok (outcome reconcile "provider_execution_evidence"), job, s)
                  else if leb job.deadline now
                  then (ok (ended expired "defer_deadline_expired"), job, s)
                  else check_circuit float clock others now rand fail_open job s
            ])) [ some kind ↦ Runs-answer _ job here | none ↦ undecided-Runs fail_open job s ])

    -- Whatever other workers do between the accesses of an evaluation, as long as they use the
    -- operations of limiter, ledger and circuit, the evaluation is a sequence of such operations,
    -- and it never leaves more permits in use than the capacity nor more probes of a failure domain
    -- in flight than allowed, if there were no more before.
    pub evaluate_dispatch-IsBounded :
        (fail_open : Bool) (job : Job float) (s : Shared float clock)
        → IsBounded s.limiter s.circuit
        → let (answer, job', s') = evaluate_dispatch float clock others now rand fail_open job s in
          Reaches float clock s s' × IsBounded s'.limiter s'.circuit
    unfolding Runs
    evaluate_dispatch-IsBounded fail_open job s b =
        let reached = evaluate-Runs fail_open job s in
        (reached, Reaches-IsBounded float clock reached b)
