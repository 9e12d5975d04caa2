-- ===== src/ProviderResilience/Examples.antt =====
-- A job that is funded and due, workers that share two permits, and a bad release.
use ai_backend_engineer_hand.Prelude.{
  ◌<◌, ℕ, String, ◌+◌, ◌-◌, ◌≤◌, ◌≡◌, ◌≢◌, ◌↔◌, refl, true, false, none, some, [], ◌∷◌, ok, raised,
  value_error, ltb, String_discrete, lookup, string_eq, all_distinct, join, arith, milliseconds,
  microseconds,
}
use ai_backend_engineer_hand.ProviderResilience.Delays.{
  backoff_delay_seconds, compute_next_attempt_at,
}
use ai_backend_engineer_hand.ProviderResilience.Limiter.{try_acquire}
use ai_backend_engineer_hand.ProviderResilience.Circuit.{
  CircuitState-discrete, CircuitBreaker, closed, open_circuit, half_open, state_of, start_half_open,
  try_acquire_probe,
}
use ai_backend_engineer_hand.ProviderResilience.Jobs.{
  succeeded, JobStatus-discrete, queued, expired, pending_reconciliation, CostState,
  ExecutionContract, Job, circuit_key, worst_case_cost, has_evidence, is_terminal_status,
  apply_authorized_degradation,
}
use ai_backend_engineer_hand.ProviderResilience.Ledger.{
  TenantBudgetLedger, has_reservation, reserve_worst_case, release_job_reservation,
}
use ai_backend_engineer_hand.ProviderResilience.Dispatch.{
  ended, noop, reconcile, Shared, DispatchDecision, outcome, defer_call, defer_job, check_circuit,
  evaluate_dispatch, process_deadline,
}
use ai_backend_engineer_hand.ProviderResilience.Repair.{
  Repair, repair_id_for, classify_incident_repair, fund_repair, repair_redispatch, redispatched,
  already_applied, build_capacity_expiry_affected_set,
}
use ai_backend_engineer_hand.ProviderResilience.Domains.{
  failure, half_opening, probe_success, perform_all, view, replay, view-refines,
}
use ai_backend_engineer_hand.ProviderResilience.Recovery.{
  never_tried, succeed, needed_successes_close,
}
use ai_backend_engineer_hand.ProviderResilience.Balances.{release-reserve}
use ai_backend_engineer_hand.ProviderResilience.Gates.{
  passed, quiet, MayCall, evaluate_dispatch-call_iff,
}
use ai_backend_engineer_hand.ProviderResilience.Sharing.{IsBounded, here, Reaches}
use ai_backend_engineer_hand.ProviderResilience.Interleavings.{evaluate_dispatch-IsBounded}
use ai_backend_engineer_hand.ProviderResilience.Deferrals.{IsRecorded, evaluate_dispatch-IsRecorded}
use ai_backend_engineer_hand.ProviderResilience.Contracts.{
  PassesModel, PassesTokens, degradation-raises_iff,
}
use ai_backend_engineer_hand.ProviderResilience.Deadlines.{
  WasSent, HasEnded, process_deadline-reserve,
}
use ai_backend_engineer_hand.ProviderResilience.Histories.{
  IsOnce, ids, repaired-once, deferred-not_affected,
}
use ai_backend_engineer_hand.ProviderResilience.Histories.{here as unrepaired}

abbrev contract : ExecutionContract milliseconds
contract = record {
  provider = "provider";
  account = "account";
  model = "large";
  region = "region";
  max_tokens = 1000;
  output_price_per_1k = 2000;
  max_input_tokens = 1000;
  input_price_per_1k = 1000;
  degradation_allowed = true;
  min_model = some "small";
  min_max_tokens = some 100;
}

abbrev job : Job milliseconds
job = record {
  job_id = "job";
  tenant_id = "tenant";
  contract = contract;
  status = queued;
  deadline = 9000000;
  cost_state = CostState.no_cost;
  reserved_cost = none;
  settled_cost = none;
  cost_overage = none;
  repair_history = [];
  attempt = none;
  intent_kind = none;
  defer = none;
  execution_retry_count = 0;
  defer_count = 0;
  release_version = "r1";
}

abbrev ledger : TenantBudgetLedger milliseconds
ledger = record { balances = ("tenant", 5000) ∷ []; reservations = [] }

abbrev breaker : CircuitBreaker
breaker = record {
  fail_threshold = 2;
  half_open_max_probes = 1;
  states = [];
  fails = [];
  probes_in_flight = [];
  probe_successes = [];
}

abbrev shared : Shared milliseconds microseconds
shared = record {
  limiter = record { capacity = 2; used = 1; available = true };
  ledger = ledger;
  circuit = breaker;
}

-- The random numbers of a call: one half of a second each.
abbrev draws : ℕ → ℕ
draws n = 500

evaluate_dispatch-call_iff_example :
    let key = circuit_key milliseconds contract in
    let (answer, job', s') =
      evaluate_dispatch milliseconds microseconds
        (quiet milliseconds microseconds)
        1000
        draws
        false
        job
        shared in
    ((answer ≡ ok passed) ↔ MayCall milliseconds microseconds job false 1000 shared)
    × ((answer ≢ ok passed) → s' ≡ shared)
    × ((answer ≡ ok passed)
        → (s'.ledger ≡ ledger)
          × (s'.limiter ≡ (try_acquire shared.limiter).1)
          × (s'.circuit ≡ (try_acquire_probe key breaker).1))
evaluate_dispatch-call_iff_example =
    evaluate_dispatch-call_iff milliseconds microseconds 1000 draws false job shared

evaluate_dispatch-IsBounded_example :
    let (answer, job', s') =
      evaluate_dispatch milliseconds microseconds (λ n s. s) 1000 draws false job shared in
    Reaches milliseconds microseconds shared s' × IsBounded s'.limiter s'.circuit
unfolding lookup
evaluate_dispatch-IsBounded_example =
    evaluate_dispatch-IsBounded milliseconds microseconds (λ n s. s) 1000 draws (λ n s. here) false
      job shared (record { permits = omega arith; probes = λ key. omega arith })

-- The circuit is open: the job is deferred.
abbrev failing : Shared milliseconds microseconds
failing = record shared {
  circuit = record breaker { states = (circuit_key milliseconds contract, open_circuit) ∷ [] };
}

abbrev deferral : DispatchDecision
deferral = record (outcome defer_call "circuit_open") { next_attempt_at = some 501000 }

deferred_now :
    (evaluate_dispatch milliseconds microseconds (λ n s. s) 1000 draws false job failing).0
    ≡ ok deferral
unfolding evaluate_dispatch check_circuit state_of defer_job compute_next_attempt_at
    backoff_delay_seconds is_terminal_status has_evidence lookup circuit_key join String_discrete
    CircuitState-discrete
deferred_now = refl

evaluate_dispatch-IsRecorded_example :
    IsRecorded milliseconds microseconds job deferral
      (evaluate_dispatch milliseconds microseconds (λ n s. s) 1000 draws false job failing).1
evaluate_dispatch-IsRecorded_example =
    evaluate_dispatch-IsRecorded milliseconds microseconds (λ n s. s) 1000 draws false job failing
      deferral deferred_now

deferred-not_affected_example :
    build_capacity_expiry_affected_set milliseconds "r1" 0 9000000 "defer_deadline_expired" (
      record (evaluate_dispatch milliseconds microseconds
        (λ n s. s)
        1000
        draws
        false
        job
        failing).1 { status = expired }
      ∷ [])
    ≡ []
deferred-not_affected_example =
    deferred-not_affected milliseconds microseconds (λ n s. s) 1000 draws false job failing "r1" 0
      9000000 expired deferral deferred_now refl

view-refines_example :
    view "key" (perform_all (("key", failure) ∷ ("other", failure) ∷ ("key", failure) ∷ []) breaker)
    ≡ replay 2 1 "key"
        (("key", failure) ∷ ("other", failure) ∷ ("key", failure) ∷ [])
        (view "key" breaker)
view-refines_example =
    view-refines "key" (("key", failure) ∷ ("other", failure) ∷ ("key", failure) ∷ []) breaker

abbrev opened : CircuitBreaker
opened = record breaker { states = ("key", open_circuit) ∷ [] }

opened_key : state_of "key" opened ≡ open_circuit
unfolding state_of lookup String_discrete
opened_key = refl

never_tried_key : never_tried "key" (("key", probe_success 1) ∷ ("other", half_opening) ∷ []) ≡ true
unfolding never_tried String_discrete
never_tried_key = refl

needed_successes_close_example :
    let tried = start_half_open "key" opened in
    (state_of "key" (succeed 2 "key" 2 tried) ≡ closed)
    × ((view "key" (succeed 2 "key" 2 tried)).fails ≡ 0)
    × ((fewer : ℕ) → fewer ≤ 1 → state_of "key" (succeed fewer "key" 2 tried) ≡ half_open)
needed_successes_close_example = needed_successes_close 1 "key" opened

-- The provider asks to wait two seconds, the backoff is half a second, and so is the jitter.
planned :
    compute_next_attempt_at milliseconds microseconds 1000 1 (some 2000) none draws ≡ ok 2501000
unfolding compute_next_attempt_at backoff_delay_seconds
planned = refl

no_reservation : has_reservation milliseconds job ledger ≡ false
unfolding has_reservation lookup
no_reservation = refl

balance_found : lookup "tenant" ledger.balances ≡ some 5000
unfolding lookup String_discrete
balance_found = refl

affordable : ltb (5000 + 0) (worst_case_cost milliseconds contract) ≡ false
unfolding worst_case_cost
affordable = refl

exact : let amount = worst_case_cost milliseconds contract in 5000 - amount + amount ≡ 5000
unfolding worst_case_cost
exact = refl

release-reserve_example :
    let (funded, job₁, l₁) = reserve_worst_case milliseconds job ledger in
    let (done, job₂, l₂) = release_job_reservation milliseconds job₁ l₁ in
    (funded ≡ ok true)
    × (done ≡ ok tt)
    × (job₂ ≡ record job { reserved_cost = none; cost_state = CostState.no_cost })
    × ((tenant : String) → lookup tenant l₂.balances ≡ lookup tenant ledger.balances)
    × ((id : String) → lookup id l₂.reservations ≡ lookup id ledger.reservations)
release-reserve_example =
    release-reserve milliseconds job ledger 5000 no_reservation balance_found affordable exact

-- The job was paid for and then it turned out that the call may have been made.
abbrev sent : Job milliseconds
sent = record job {
  attempt = some (record {
    attempt_id = "attempt";
    job_id = "job";
    provider_idempotency_key = "key";
    correlation_id = "correlation";
    provider_request_id = some "request";
    provider_dispatch_started_at = none;
  });
}

process_deadline-reserve_example :
    let (funded, reserved, held) = reserve_worst_case milliseconds job ledger in
    let started : Job milliseconds = record reserved {
      attempt = sent.attempt;
      status = succeeded;
    } in
    let (answer, job', l') = process_deadline milliseconds microseconds started held in
    (WasSent sent.attempt
      → (answer ≡ ok (outcome reconcile "deadline_but_execution_unknown"))
        × (job' ≡ record started {
          status = pending_reconciliation;
          cost_state = CostState.reconciliation_pending;
        })
        × (lookup "tenant" l'.balances ≡ some (5000 - worst_case_cost milliseconds contract))
        × (lookup "job" l'.reservations ≡ some (worst_case_cost milliseconds contract)))
    × (¬ WasSent sent.attempt
        → HasEnded succeeded
        → (answer ≡ ok (outcome noop "already_terminal")) × (job' ≡ started) × (l' ≡ held))
    × (¬ WasSent sent.attempt
        → ¬ HasEnded succeeded
        → (answer ≡ ok (ended expired "expired_no_execution"))
          × (job' ≡ record started {
            status = expired;
            reserved_cost = none;
            cost_state = CostState.no_cost;
          })
          × ((tenant : String) → lookup tenant l'.balances ≡ lookup tenant ledger.balances)
          × ((id : String) → lookup id l'.reservations ≡ lookup id ledger.reservations))
process_deadline-reserve_example =
    process_deadline-reserve milliseconds microseconds job ledger 5000 sent.attempt succeeded
      no_reservation balance_found affordable exact

degradation-raises_iff_example :
    let target : String = "small" in
    let answer = apply_authorized_degradation milliseconds contract "small" 50 in
    ((answer ≡ ok (record contract { model = "small"; max_tokens = 50 })) ↔ (
      (contract.degradation_allowed ≡ true)
      × PassesModel milliseconds contract "small"
      × PassesTokens milliseconds contract 50))
    × ((answer ≡ raised (value_error "degradation not authorized by the persisted contract"))
        ↔ (contract.degradation_allowed ≡ false))
    × ((answer ≡ raised (value_error "target model is not an authorized degradation target")) ↔ (
        (contract.degradation_allowed ≡ true)
        × ((floor : String) × (contract.min_model ≡ some floor)
            × (target ≢ floor)
            × (target ≢ contract.model))))
    × ((answer ≡ raised (value_error "target max_tokens below the authorized floor")) ↔ (
        (contract.degradation_allowed ≡ true)
        × PassesModel milliseconds contract "small"
        × ((floor : ℕ) × (contract.min_max_tokens ≡ some floor) × (50 < floor))))
degradation-raises_iff_example = degradation-raises_iff milliseconds contract "small" 50

-- The bad release expired the job.
abbrev repair : Repair milliseconds
repair = record {
  job = record job { status = expired };
  outbox = [];
  repairs = [];
  ledger = ledger;
}

repair_made : (repair_redispatch milliseconds 1000 ("job" ∷ []) "r1" repair).0 ≡ ok redispatched
unfolding repair_redispatch fund_repair classify_incident_repair reserve_worst_case worst_case_cost
    has_evidence lookup repair_id_for String_discrete JobStatus-discrete
repair_made = refl

nothing_repaired : IsOnce [] []
unfolding ids
nothing_repaired = record { distinct = refl; remembered = λ id h. cc }

repaired-once_example :
    let u = (repair_redispatch milliseconds 1000 ("job" ∷ []) "r1" repair).1 in
    let again = record u { job = record job { status = expired }; ledger = ledger } in
    (repair_redispatch milliseconds 2000 ("job" ∷ []) "r1" again ≡ (ok already_applied, again))
    × (all_distinct (ids u.outbox) ≡ true)
repaired-once_example =
    repaired-once milliseconds 1000 ("job" ∷ []) "r1" repair (record job { status = expired })
      ledger 2000 ("job" ∷ []) nothing_repaired repair_made unrepaired refl
