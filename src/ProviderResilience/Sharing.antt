-- ===== src/ProviderResilience/Sharing.antt =====
-- Workers that share one limiter, one ledger and one circuit breaker
-- (projects/ai-backend-data-layer/api/day56_provider_resilience.py): every operation takes the lock of
-- its object, so a history is a sequence of operations.
use ai_backend_engineer_hand.Prelude.{
  String, ◌+◌, ◌-◌, Bool, string_eq, ◌≤◌, lookup, lookup-insert, Float, Clock, arith,
}
use ai_backend_engineer_hand.ProviderResilience.Limiter.{SharedRateLimiter, try_acquire, release}
use ai_backend_engineer_hand.ProviderResilience.Circuit.{
  circuit_state_eq, CircuitBreaker, get_or, record_failure, start_half_open, try_acquire_probe,
  release_probe, record_probe_success, record_probe_failure,
}
use ai_backend_engineer_hand.ProviderResilience.Jobs.{Job}
use ai_backend_engineer_hand.ProviderResilience.Ledger.{
  reserve_worst_case, settle_actual, release_job_reservation,
}
use ai_backend_engineer_hand.ProviderResilience.Dispatch.{Shared}
use ai_backend_engineer_hand.ProviderResilience.Domains.{
  Call, failure, half_opening, probe, probe_failure, probe_success, perform,
}

-- No more permits are out than the capacity, and no more probes of any domain than allowed.
pub record IsBounded (l : SharedRateLimiter) (c : CircuitBreaker) : Type 0 where
  pub permits : l.used ≤ l.capacity
  pub probes : (key : String) → get_or 0 (lookup key c.probes_in_flight) ≤ c.half_open_max_probes

perform-probes :
    (operation : Call) (j : String) (c : CircuitBreaker)
    → ((key : String) → get_or 0 (lookup key c.probes_in_flight) ≤ c.half_open_max_probes)
    → (key : String)
    → get_or 0 (lookup key (perform operation j c).probes_in_flight)
      ≤ (perform operation j c).half_open_max_probes
unfolding perform record_failure start_half_open try_acquire_probe release_probe
    record_probe_success record_probe_failure
perform-probes failure j c h key = ground (arith, h key)
perform-probes half_opening j c h key =
    ground (arith, h key, lookup-insert j key 0 c.probes_in_flight)
perform-probes probe j c h key =
    let n = get_or 0 (lookup j c.probes_in_flight) in
    ground (arith, h key, lookup-insert j key (n + 1) c.probes_in_flight)
perform-probes probe_failure j c h key =
    let n = get_or 0 (lookup j c.probes_in_flight) in
    ground (arith, h key, h j, lookup-insert j key (n - 1) c.probes_in_flight)
perform-probes (probe_success needed) j c h key =
    let n = get_or 0 (lookup j c.probes_in_flight) in
    ground (arith, h key, h j, lookup-insert j key (n - 1) c.probes_in_flight)

module _ (float : Float) (clock : Clock float) where
  -- One operation of one worker.
  pub data Step : Shared float clock → Shared float clock → Type 0 where
    acquire : (s : Shared float clock) → Step s (record s { limiter = (try_acquire s.limiter).1 })
    give : (s : Shared float clock) → Step s (record s { limiter = release s.limiter })
    outage :
        (up : Bool) (s : Shared float clock)
        → Step s (record s { limiter = record s.limiter { available = up } })
    circuit :
        (operation : Call) (key : String) (s : Shared float clock)
        → Step s (record s { circuit = perform operation key s.circuit })
    reserving :
        (job : Job float) (s : Shared float clock)
        → Step s (record s { ledger = (reserve_worst_case float job s.ledger).2 })
    settling :
        (job : Job float) (cost : float.F) (s : Shared float clock)
        → Step s (record s { ledger = (settle_actual float job cost s.ledger).2 })
    unreserving :
        (job : Job float) (s : Shared float clock)
        → Step s (record s { ledger = (release_job_reservation float job s.ledger).2 })

  pub data Reaches (s : Shared float clock) : Shared float clock → Type 0 where
    here : Reaches s s
    next : {t u : Shared float clock} → Reaches s t → Step t u → Reaches s u

  pub Reaches-trans : {s t u : Shared float clock} → Reaches s t → Reaches t u → Reaches s u
  Reaches-trans r here = r
  Reaches-trans r (next q st) = next (Reaches-trans r q) st

  Step-IsBounded :
      {s t : Shared float clock}
      → Step s t
      → IsBounded s.limiter s.circuit
      → IsBounded t.limiter t.circuit
  unfolding try_acquire release
  Step-IsBounded (acquire s) b = record {
    permits = ground (arith, b.permits);
    probes = λ key. b.probes key;
  }
  Step-IsBounded (give s) b = record {
    permits = ground (arith, b.permits);
    probes = λ key. b.probes key;
  }
  Step-IsBounded (outage up s) b = record { permits = b.permits; probes = λ key. b.probes key }
  Step-IsBounded (circuit operation j s) b = record {
    permits = b.permits;
    probes = λ key. perform-probes operation j s.circuit b.probes key;
  }
  Step-IsBounded (reserving job s) b = record { permits = b.permits; probes = λ key. b.probes key }
  Step-IsBounded (settling job cost s) b = record {
    permits = b.permits;
    probes = λ key. b.probes key;
  }
  Step-IsBounded (unreserving job s) b = record {
    permits = b.permits;
    probes = λ key. b.probes key;
  }

  pub Reaches-IsBounded :
      {s t : Shared float clock}
      → Reaches s t
      → IsBounded s.limiter s.circuit
      → IsBounded t.limiter t.circuit
  Reaches-IsBounded here b = b
  Reaches-IsBounded (next r st) b = Step-IsBounded st (Reaches-IsBounded r b)
