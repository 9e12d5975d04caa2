-- ===== src/ProviderResilience/Circuit.antt =====
-- `CircuitBreaker` (projects/ai-backend-data-layer/api/day56_provider_resilience.py): four dicts, a
-- key for each failure domain.
use ai_backend_engineer_hand.Prelude.{
  ℕ, String, ◌+◌, ◌-◌, Bool, true, false, not, Option, none, some, Eq, ◌==◌, holds, ltb, leb, Dict,
  lookup, insert, if◌then◌else◌,
}

pub data CircuitState : Type 0 where
  closed open_circuit half_open : CircuitState

unfoldable pub CircuitState-discrete : Discrete CircuitState
CircuitState-discrete = hlevel

instance abbrev pub circuit_state_eq : Eq CircuitState
circuit_state_eq = record { beq = λ a b. holds (CircuitState-discrete a b) }

pub record CircuitBreaker : Type 0 where
  pub fail_threshold : ℕ
  pub half_open_max_probes : ℕ
  pub states : Dict CircuitState
  pub fails : Dict ℕ
  pub probes_in_flight : Dict ℕ
  pub probe_successes : Dict ℕ

-- `d.get(key, default)`.
abbrev pub get_or {ℓ} : {V : Type ℓ} → V → Option V → V
get_or default none = default
get_or default (some v) = v

-- `state`.
unfoldable pub state_of : String → CircuitBreaker → CircuitState
state_of key c = get_or closed (lookup key c.states)

unfoldable pub record_failure : String → CircuitBreaker → CircuitBreaker
record_failure key c =
    let n = get_or 0 (lookup key c.fails) + 1 in
    let counted = record c { fails = insert key n c.fails } in
    if leb c.fail_threshold n
    then record counted { states = insert key open_circuit c.states }
    else counted

unfoldable pub start_half_open : String → CircuitBreaker → CircuitBreaker
start_half_open key c = record c {
  states = insert key half_open c.states;
  probes_in_flight = insert key 0 c.probes_in_flight;
  probe_successes = insert key 0 c.probe_successes;
}

unfoldable pub has_probe_capacity : String → CircuitBreaker → Bool
has_probe_capacity key c =
    if not (get_or closed (lookup key c.states) == half_open)
    then false
    else ltb (get_or 0 (lookup key c.probes_in_flight)) c.half_open_max_probes

unfoldable pub try_acquire_probe : String → CircuitBreaker → Bool × CircuitBreaker
try_acquire_probe key c =
    if not (get_or closed (lookup key c.states) == half_open)
    then (false, c)
    else if leb c.half_open_max_probes (get_or 0 (lookup key c.probes_in_flight))
    then (false, c)
    else (
      true,
      record c {
        probes_in_flight =
            insert key (get_or 0 (lookup key c.probes_in_flight) + 1) c.probes_in_flight;
      },
    )

-- The slot that a finished probe held: `max(0, n - 1)`.
unfoldable pub release_probe : String → CircuitBreaker → CircuitBreaker
release_probe key c = record c {
  probes_in_flight = insert key (get_or 0 (lookup key c.probes_in_flight) - 1) c.probes_in_flight;
}

unfoldable pub record_probe_success : String → ℕ → CircuitBreaker → CircuitBreaker
record_probe_success key needed_to_close c =
    let released = release_probe key c in
    if not (get_or closed (lookup key c.states) == half_open)
    then released
    else let n = get_or 0 (lookup key c.probe_successes) + 1 in
      let counted = record released { probe_successes = insert key n c.probe_successes } in
      if leb needed_to_close n
      then record counted { states = insert key closed c.states; fails = insert key 0 c.fails }
      else counted

unfoldable pub record_probe_failure : String → CircuitBreaker → CircuitBreaker
record_probe_failure key c = record (release_probe key c) {
  states = insert key open_circuit c.states;
}
