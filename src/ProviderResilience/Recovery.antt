-- ===== src/ProviderResilience/Recovery.antt =====
-- How a failure domain of `CircuitBreaker` opens, stays open and closes again
-- (projects/ai-backend-data-layer/api/day56_provider_resilience.py).
use ai_backend_engineer_hand.Prelude.{
  ℕ, zero, suc, String, ◌≡◌, ap, ◌∙◌, Bool, true, not, ◌&&◌, List, [], ◌∷◌, ◌==◌, string_eq, ◌≤◌,
  lookup-insert, arith, if◌then◌else◌,
}
use ai_backend_engineer_hand.ProviderResilience.Circuit.{
  closed, open_circuit, half_open, CircuitBreaker, state_of, start_half_open, release_probe,
  record_probe_success,
}
use ai_backend_engineer_hand.ProviderResilience.Domains.{
  Domain, Call, failure, half_opening, probe, probe_failure, probe_success, perform_all, view, move,
  replay, view-refines,
}

-- No call of the list starts to try the domain again.
unfoldable pub never_tried : String → List (String × Call) → Bool
never_tried key [] = true
never_tried key ((j, half_opening) ∷ calls) = not (j == key) && never_tried key calls
never_tried key ((j, _) ∷ calls) = never_tried key calls

move-stays_open :
    (threshold most : ℕ) (call : Call) (d : Domain) (key j : String)
    → d.state ≡ open_circuit
    → never_tried key ((j, call) ∷ []) ≡ true
    → (if j == key then move threshold most call d else d).state ≡ open_circuit
unfolding move never_tried
move-stays_open t m failure d key j h n = ground arith
move-stays_open t m half_opening d key j h n = ground arith
move-stays_open t m probe d key j h n = ground arith
move-stays_open t m probe_failure d key j h n = ground arith
move-stays_open t m (probe_success needed) d key j h n = ground arith

never_tried-head :
    (key j : String) (call : Call) (calls : List (String × Call))
    → never_tried key ((j, call) ∷ calls) ≡ true
    → (never_tried key ((j, call) ∷ []) ≡ true) × (never_tried key calls ≡ true)
unfolding never_tried
never_tried-head key j failure calls h = ground arith
never_tried-head key j half_opening calls h = ground arith
never_tried-head key j probe calls h = ground arith
never_tried-head key j probe_failure calls h = ground arith
never_tried-head key j (probe_success needed) calls h = ground arith

replay-stays_open :
    (threshold most : ℕ) (key : String) (calls : List (String × Call)) (d : Domain)
    → d.state ≡ open_circuit
    → never_tried key calls ≡ true
    → (replay threshold most key calls d).state ≡ open_circuit
unfolding replay
replay-stays_open t m key [] d h n = h
replay-stays_open t m key ((j, call) ∷ calls) d h n =
    let (first, others) = never_tried-head key j call calls n in
    replay-stays_open t m key calls (if j == key then move t m call d else d)
      (move-stays_open t m call d key j h first) others

-- A known failure is not overwritten: an open circuit stays open under every sequence of failures,
-- probes and late successes that does not set its domain half-open.
opened-stays_open :
    (key : String) (calls : List (String × Call)) (c : CircuitBreaker)
    → state_of key c ≡ open_circuit
    → never_tried key calls ≡ true
    → state_of key (perform_all calls c) ≡ open_circuit
unfolding state_of view
opened-stays_open key calls c h n =
    ap (λ d. d.state) (view-refines key calls c)
    ∙ replay-stays_open c.fail_threshold c.half_open_max_probes key calls (view key c) h n

-- `n` probes succeed one after another.
unfoldable pub succeed : ℕ → String → ℕ → CircuitBreaker → CircuitBreaker
succeed zero key needed c = c
succeed (suc n) key needed c = record_probe_success key needed (succeed n key needed c)

succeed-half_open :
    (n : ℕ) (key : String) (needed : ℕ) (c : CircuitBreaker)
    → suc n ≤ needed
    → let d = view key (succeed n key needed (start_half_open key c)) in
      (d.state ≡ half_open) × (d.successes ≡ n)
unfolding succeed view start_half_open record_probe_success release_probe
succeed-half_open zero key needed c h = grind (arith, lookup-insert)
succeed-half_open (suc n) key needed c h =
    let (state, successes) = succeed-half_open n key needed c (omega (arith, h)) in
    grind (arith, lookup-insert)

succeed-closed :
    (n : ℕ) (key : String) (c : CircuitBreaker)
    → let d = view key (succeed (suc n) key (suc n) (start_half_open key c)) in
      (d.state ≡ closed) × (d.fails ≡ 0)
unfolding succeed view record_probe_success release_probe
succeed-closed n key c =
    let (state, successes) = succeed-half_open n key (suc n) c (omega arith) in
    grind (arith, lookup-insert)

-- A circuit that is set half-open recovers: as many probe successes as are needed close it and
-- reset its failures, and after fewer it is still half-open.
pub needed_successes_close :
    (n : ℕ) (key : String) (c : CircuitBreaker)
    → let tried = start_half_open key c in
      (state_of key (succeed (suc n) key (suc n) tried) ≡ closed)
      × ((view key (succeed (suc n) key (suc n) tried)).fails ≡ 0)
      × ((fewer : ℕ) → fewer ≤ n → state_of key (succeed fewer key (suc n) tried) ≡ half_open)
unfolding state_of view
needed_successes_close n key c =
    let (state, fails) = succeed-closed n key c in
    (state, fails, λ fewer h. (succeed-half_open fewer key (suc n) c (omega (arith, h))).0)
