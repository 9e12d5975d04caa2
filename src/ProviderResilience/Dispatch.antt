-- ===== src/ProviderResilience/Dispatch.antt =====
-- What a worker that holds a job may do with the provider now, and what happens at a deadline
-- (`evaluate_dispatch`, `_defer` and `process_deadline` of
-- projects/ai-backend-data-layer/api/day56_provider_resilience.py). The limiter, the ledger and the
-- breaker each take a lock of their own, so other workers run between two accesses of one
-- evaluation: `others n` is what they do before its n-th access.
use ai_backend_engineer_hand.Prelude.{
  ℕ, String, ◌+◌, Bool, true, false, not, Option, none, some, Result, ok, raised, Eq, ◌==◌, holds,
  leb, ltb, prefixed, Float, Clock, if◌then◌else◌,
}
use ai_backend_engineer_hand.ProviderResilience.Delays.{compute_next_attempt_at}
use ai_backend_engineer_hand.ProviderResilience.Limiter.{SharedRateLimiter, try_acquire, release}
use ai_backend_engineer_hand.ProviderResilience.Circuit.{
  CircuitState, open_circuit, half_open, circuit_state_eq, CircuitBreaker, state_of,
  has_probe_capacity, try_acquire_probe,
}
use ai_backend_engineer_hand.ProviderResilience.Jobs.{
  JobStatus, deferred, expired, pending_reconciliation, is_terminal_status, terminal_for_intent,
  intent_value, has_evidence, Job, circuit_key,
}
use ai_backend_engineer_hand.ProviderResilience.Ledger.{
  TenantBudgetLedger, has_reservation, release_job_reservation, hold_for_reconciliation,
}

pub data ProviderAction : Type 0 where
  call defer_call reconcile terminal noop : ProviderAction

unfoldable pub ProviderAction-discrete : Discrete ProviderAction
ProviderAction-discrete = hlevel

instance abbrev pub provider_action_eq : Eq ProviderAction
provider_action_eq = record { beq = λ a b. holds (ProviderAction-discrete a b) }

pub record DispatchDecision : Type 0 where
  pub action : ProviderAction
  pub reason : String
  pub next_attempt_at : Option ℕ
  pub terminal_status : Option JobStatus

-- `DispatchDecision(action, reason)`.
abbrev pub outcome : ProviderAction → String → DispatchDecision
outcome action reason = record {
  action = action;
  reason = reason;
  next_attempt_at = none;
  terminal_status = none;
}

-- A terminal decision with its status.
abbrev pub ended : JobStatus → String → DispatchDecision
ended status reason = record (outcome terminal reason) { terminal_status = some status }

module _ (float : Float) (clock : Clock float) where
  open float use {F}

  -- What the workers share.
  pub record Shared : Type 0 where
    pub limiter : SharedRateLimiter
    pub ledger : TenantBudgetLedger float
    pub circuit : CircuitBreaker

  -- `_defer`, at the time `now` with the draws `rand`.
  unfoldable pub defer_job : Job float → String → ℕ → (ℕ → F) → Result DispatchDecision × Job float
  defer_job job reason now rand =
      let n = job.defer_count + 1 in
      let counted = record job { defer_count = n } in
      elim (compute_next_attempt_at float clock now n none none rand) [
        | raised error ↦ (raised error, counted)
        | ok planned ↦
            let next_at = if ltb job.deadline planned then job.deadline else planned in
            (
              ok (record (outcome defer_call reason) { next_attempt_at = some next_at }),
              record counted {
                defer = some (record {
                  retry_reason = reason;
                  next_attempt_at = next_at;
                  defer_count = n;
                  deadline = job.deadline;
                });
                status = deferred;
              },
            )
      ]

  module _ (others : ℕ → Shared → Shared) (now : ℕ) (rand : ℕ → F) where
    -- A deferral, the shared state being what it is.
    abbrev pub deferring :
        Job float → String → Shared → Result DispatchDecision × Job float × Shared
    deferring job reason s = let (answer, job') = defer_job job reason now rand in (answer, job', s)

    -- `if permit_acquired: limiter.release()`.
    unfoldable pub give_back : Bool → Shared → Shared
    give_back permit_acquired s =
        let before = others 6 s in
        if permit_acquired then record before { limiter = release before.limiter } else s

    -- (7) The probe slot of a half-open circuit, taken now.
    unfoldable pub take_probe :
        CircuitState → Bool → Job float → Shared → Result DispatchDecision × Job float × Shared
    take_probe cstate permit job s =
        let before = others 5 s in
        let (won, circuit) = try_acquire_probe (circuit_key float job.contract) before.circuit in
        if cstate == half_open
        then if won
          then (ok (outcome call "all_gates_passed"), job, record before { circuit = circuit })
          else deferring job "circuit_half_open_no_probe_slot"
              (give_back permit (record before { circuit = circuit }))
        else (ok (outcome call "all_gates_passed"), job, s)

    -- (6) The reservation.
    unfoldable pub check_funding :
        CircuitState → Bool → Job float → Shared → Result DispatchDecision × Job float × Shared
    check_funding cstate permit job s =
        let before = others 4 s in
        if not (has_reservation float job before.ledger)
        then deferring job "no_cost_reservation" (give_back permit before)
        else take_probe cstate permit job before

    -- (5) The permit of the limiter.
    unfoldable pub take_permit :
        Bool → CircuitState → Job float → Shared → Result DispatchDecision × Job float × Shared
    take_permit emergency_fail_open cstate job s =
        let seen = others 2 s in
        let before = others 3 seen in
        let (won, limiter) = try_acquire before.limiter in
        let after = record before { limiter = limiter } in
        if seen.limiter.available
        then if not won
          then deferring job "no_rate_capacity" after
          else check_funding cstate true job after
        else if not emergency_fail_open
        then deferring job "limiter_unavailable_fail_closed" seen
        else check_funding cstate false job seen

    -- (4) The circuit.
    unfoldable pub check_circuit :
        Bool → Job float → Shared → Result DispatchDecision × Job float × Shared
    check_circuit emergency_fail_open job s =
        let key = circuit_key float job.contract in
        let seen = others 0 s in
        let cstate = state_of key seen.circuit in
        let before = others 1 seen in
        if cstate == open_circuit
        then deferring job "circuit_open" seen
        else if cstate == half_open
        then if not (has_probe_capacity key before.circuit)
          then deferring job "circuit_half_open_no_probe_slot" before
          else take_permit emergency_fail_open cstate job before
        else take_permit emergency_fail_open cstate job seen

    unfoldable pub evaluate_dispatch :
        Bool → Job float → Shared → Result DispatchDecision × Job float × Shared
    evaluate_dispatch emergency_fail_open job s =
        if is_terminal_status job.status
        then (ok (outcome noop "already_terminal"), job, s)
        else elim job.intent_kind [
          | some kind ↦ (
            ok (ended (terminal_for_intent kind) (prefixed "durable_intent:" (intent_value kind))),
            job,
            s,
          )
          | none ↦
              if has_evidence job.attempt
              then (ok (outcome reconcile "provider_execution_evidence"), job, s)
              else if leb job.deadline now
              then (ok (ended expired "defer_deadline_expired"), job, s)
              else check_circuit emergency_fail_open job s
        ]

  unfoldable pub process_deadline :
      Job float
      → TenantBudgetLedger float
      → Result DispatchDecision × Job float × TenantBudgetLedger float
  process_deadline job ledger =
      if has_evidence job.attempt
      then (
        ok (outcome reconcile "deadline_but_execution_unknown"),
        record (hold_for_reconciliation float job) { status = pending_reconciliation },
        ledger,
      )
      else if is_terminal_status job.status
      then (ok (outcome noop "already_terminal"), job, ledger)
      else let (answer, released, ledger') = release_job_reservation float job ledger in
        elim answer [
          | raised error ↦ (raised error, released, ledger')
          | ok _ ↦ (
            ok (ended expired "expired_no_execution"),
            record released { status = expired },
            ledger',
          )
        ]
