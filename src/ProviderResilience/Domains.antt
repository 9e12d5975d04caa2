-- ===== src/ProviderResilience/Domains.antt =====
-- `CircuitBreaker` (projects/ai-backend-data-layer/api/day56_provider_resilience.py) against what it
-- is for: one small machine for each failure domain, that only the calls for this domain move.
use ai_backend_engineer_hand.Prelude.{
  ℕ, String, ◌+◌, ◌-◌, ◌≡◌, refl, ◌∙◌, not, ◌&&◌, List, [], ◌∷◌, ◌==◌, string_eq, ltb, leb,
  lookup-insert, arith, if◌then◌else◌, lookup,
}
use ai_backend_engineer_hand.ProviderResilience.Circuit.{
  CircuitState, closed, open_circuit, half_open, circuit_state_eq, CircuitBreaker, get_or,
  record_failure, start_half_open, try_acquire_probe, release_probe, record_probe_success,
  record_probe_failure,
}

-- One failure domain.
pub record Domain : Type 0 where
  pub state : CircuitState
  pub fails : ℕ
  pub probes : ℕ
  pub successes : ℕ

-- The calls that change a breaker; a success is recorded with the number that closes the circuit.
pub data Call : Type 0 where
  failure half_opening probe probe_failure : Call
  probe_success : ℕ → Call

unfoldable pub perform : Call → String → CircuitBreaker → CircuitBreaker
perform failure key c = record_failure key c
perform half_opening key c = start_half_open key c
perform probe key c = (try_acquire_probe key c).1
perform probe_failure key c = record_probe_failure key c
perform (probe_success needed) key c = record_probe_success key needed c

unfoldable pub perform_all : List (String × Call) → CircuitBreaker → CircuitBreaker
perform_all [] c = c
perform_all ((key, call) ∷ calls) c = perform_all calls (perform call key c)

-- What a breaker says of one domain.
unfoldable pub view : String → CircuitBreaker → Domain
view key c = record {
  state = get_or closed (lookup key c.states);
  fails = get_or 0 (lookup key c.fails);
  probes = get_or 0 (lookup key c.probes_in_flight);
  successes = get_or 0 (lookup key c.probe_successes);
}

-- The machine of one domain, with the threshold of failures and the number of probes.
unfoldable pub move : (threshold most : ℕ) → Call → Domain → Domain
move threshold most failure d = record d {
  fails = d.fails + 1;
  state = if leb threshold (d.fails + 1) then open_circuit else d.state;
}
move threshold most half_opening d = record d { state = half_open; probes = 0; successes = 0 }
move threshold most probe d =
    if d.state == half_open && ltb d.probes most then record d { probes = d.probes + 1 } else d
move threshold most probe_failure d = record d { state = open_circuit; probes = d.probes - 1 }
move threshold most (probe_success needed) d =
    let after = record d { probes = d.probes - 1 } in
    if not (d.state == half_open)
    then after
    else if leb needed (d.successes + 1)
    then record after { successes = d.successes + 1; state = closed; fails = 0 }
    else record after { successes = d.successes + 1 }

unfoldable pub replay : (threshold most : ℕ) → String → List (String × Call) → Domain → Domain
replay threshold most key [] d = d
replay threshold most key ((j, call) ∷ calls) d =
    replay threshold most key calls (if j == key then move threshold most call d else d)

-- Two domains are equal if their parts are.
Domain-eq :
    (d e : Domain)
    → d.state ≡ e.state
    → d.fails ≡ e.fails
    → d.probes ≡ e.probes
    → d.successes ≡ e.successes
    → d ≡ e
Domain-eq d e s f p n = ground arith

view-failure :
    (key j : String) (c : CircuitBreaker)
    → view key (record_failure j c) ≡ (
        if j == key
        then move c.fail_threshold c.half_open_max_probes failure (view key c)
        else view key c)
unfolding view move record_failure
view-failure key j c = grind (arith, Domain-eq, lookup-insert)

view-half_opening :
    (key j : String) (c : CircuitBreaker)
    → view key (start_half_open j c) ≡ (
        if j == key
        then move c.fail_threshold c.half_open_max_probes half_opening (view key c)
        else view key c)
unfolding view move start_half_open
view-half_opening key j c = grind (arith, Domain-eq, lookup-insert)

view-probe :
    (key j : String) (c : CircuitBreaker)
    → view key ((try_acquire_probe j c).1) ≡ (
        if j == key
        then move c.fail_threshold c.half_open_max_probes probe (view key c)
        else view key c)
unfolding view move try_acquire_probe
view-probe key j c = grind (arith, Domain-eq, lookup-insert)

view-probe_failure :
    (key j : String) (c : CircuitBreaker)
    → view key (record_probe_failure j c) ≡ (
        if j == key
        then move c.fail_threshold c.half_open_max_probes probe_failure (view key c)
        else view key c)
unfolding view move record_probe_failure release_probe
view-probe_failure key j c = grind (arith, Domain-eq, lookup-insert)

view-probe_success :
    (needed : ℕ) (key j : String) (c : CircuitBreaker)
    → view key (record_probe_success j needed c) ≡ (
        if j == key
        then move c.fail_threshold c.half_open_max_probes (probe_success needed) (view key c)
        else view key c)
unfolding view move record_probe_success release_probe
view-probe_success needed key j c = grind (arith, Domain-eq, lookup-insert)

view-perform :
    (call : Call) (key j : String) (c : CircuitBreaker)
    → view key (perform call j c) ≡ (
        if j == key
        then move c.fail_threshold c.half_open_max_probes call (view key c)
        else view key c)
unfolding perform
view-perform failure key j c = view-failure key j c
view-perform half_opening key j c = view-half_opening key j c
view-perform probe key j c = view-probe key j c
view-perform probe_failure key j c = view-probe_failure key j c
view-perform (probe_success needed) key j c = view-probe_success needed key j c

-- The two limits of a breaker are never changed.
pub limits-perform :
    (call : Call) (j : String) (c : CircuitBreaker)
    → ((perform call j c).fail_threshold ≡ c.fail_threshold)
      × ((perform call j c).half_open_max_probes ≡ c.half_open_max_probes)
unfolding perform record_failure start_half_open try_acquire_probe release_probe
    record_probe_success record_probe_failure
limits-perform failure j c = ground arith
limits-perform half_opening j c = ground arith
limits-perform probe j c = ground arith
limits-perform probe_failure j c = ground arith
limits-perform (probe_success needed) j c = ground arith

replay-eq :
    (key : String) (calls : List (String × Call)) {t t' m m' : ℕ} {d d' : Domain}
    → t ≡ t'
    → m ≡ m'
    → d ≡ d'
    → replay t m key calls d ≡ replay t' m' key calls d'
replay-eq key calls t m d = cc

-- The circuit breaker refines one small machine for each failure domain: after any sequence of
-- calls, what it says of a domain is what the machine of that domain reaches by the calls for that
-- domain alone.
pub view-refines :
    (key : String) (calls : List (String × Call)) (c : CircuitBreaker)
    → view key (perform_all calls c)
      ≡ replay c.fail_threshold c.half_open_max_probes key calls (view key c)
unfolding perform_all replay
view-refines key [] c = refl
view-refines key ((j, call) ∷ calls) c =
    let (threshold, most) = limits-perform call j c in
    view-refines key calls (perform call j c)
    ∙ replay-eq key calls threshold most (view-perform call key j c)
