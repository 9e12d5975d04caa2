-- ===== src/ProviderResilience/Deadlines.antt =====
-- The deadline of a job that holds a reservation (`process_deadline` of
-- projects/ai-backend-data-layer/api/day56_provider_resilience.py).
use ai_backend_engineer_hand.Prelude.{
  String, ◌≡◌, refl, ◌≢◌, ◌⊎◌, ◌↔◌, Option-cases, inl, inr, true, false, Bool-cases, Option, none,
  some, ok, Clock, string_eq, lookup, insert, without, lookup-insert, lookup-insert_self,
  lookup-without, Float, arith,
}
use ai_backend_engineer_hand.ProviderResilience.Jobs.{
  CostState, Attempt, JobStatus, Job, worst_case_cost, is_terminal_status, has_evidence, succeeded,
  failed, cancelled, expired, pending_reconciliation,
}
use ai_backend_engineer_hand.ProviderResilience.Dispatch.{
  outcome, ended, reconcile, noop, process_deadline,
}
use ai_backend_engineer_hand.ProviderResilience.Ledger.{
  TenantBudgetLedger, tolerance, has_reservation, reserve_worst_case, release_job_reservation,
  hold_for_reconciliation,
}
use ai_backend_engineer_hand.ProviderResilience.Balances.{reserved_facts}

-- The attempt was dispatched, or the provider knows it.
pub data WasSent : Option Attempt → Type 0 where
  dispatched : (a : Attempt) → a.provider_dispatch_started_at ≢ none → WasSent (some a)
  known : (a : Attempt) → a.provider_request_id ≢ none → WasSent (some a)

WasSent-has_evidence : (a : Option Attempt) → WasSent a → has_evidence a ≡ true
unfolding has_evidence
WasSent-has_evidence _ (dispatched a n) = ground arith
WasSent-has_evidence _ (known a n) = ground arith

has_evidence-WasSent : (a : Option Attempt) → has_evidence a ≡ true → WasSent a
unfolding has_evidence
has_evidence-WasSent none h = cc
has_evidence-WasSent (some a) h = elim (Option-cases a.provider_request_id) [
  | inl e ↦ dispatched a (λ n. ground arith)
  | inr (id, e) ↦ known a (λ n. ground arith)
]

unfoldable pub HasEnded : JobStatus → Type 0
HasEnded s = (s ≡ succeeded) ⊎ ((s ≡ failed) ⊎ ((s ≡ cancelled) ⊎ (s ≡ expired)))

is_terminal_status-HasEnded : (s : JobStatus) → (is_terminal_status s ≡ true) ↔ HasEnded s
unfolding is_terminal_status HasEnded
is_terminal_status-HasEnded s = ground arith

unsent_evidence : (a : Option Attempt) → ¬ WasSent a → has_evidence a ≡ false
unsent_evidence a n = elim (Bool-cases (has_evidence a)) [
  | inl e ↦ absurd (n (has_evidence-WasSent a e))
  | inr e ↦ e
]

live_status : (s : JobStatus) → ¬ HasEnded s → is_terminal_status s ≡ false
live_status s n = elim (Bool-cases (is_terminal_status s)) [
  | inl e ↦ absurd (n ((is_terminal_status-HasEnded s).0 e))
  | inr e ↦ e
]

module _ (float : Float) where
  open float use {F, lt, add, sub}

  -- An expiry takes the reservation off and adds it to the balance.
  expired_facts :
      (clock : Clock float) (job : Job float) (l : TenantBudgetLedger float) (balance amount : F)
      → has_evidence job.attempt ≡ false
      → is_terminal_status job.status ≡ false
      → lookup job.tenant_id l.balances ≡ some balance
      → lookup job.job_id l.reservations ≡ some amount
      → process_deadline float clock job l ≡ (
        ok (ended expired "expired_no_execution"),
        record job { status = expired; reserved_cost = none; cost_state = CostState.no_cost },
        record {
          balances = insert job.tenant_id (add balance amount) l.balances;
          reservations = without job.job_id l.reservations;
        },
      )
  unfolding process_deadline release_job_reservation
  expired_facts clock job l balance amount u v b h = ground arith

  sent_facts :
      (clock : Clock float) (job : Job float) (l : TenantBudgetLedger float)
      → has_evidence job.attempt ≡ true
      → process_deadline float clock job l ≡ (
        ok (outcome reconcile "deadline_but_execution_unknown"),
        record job {
          status = pending_reconciliation;
          cost_state = CostState.reconciliation_pending;
        },
        l,
      )
  unfolding process_deadline hold_for_reconciliation
  sent_facts clock job l e = rw e

  over_facts :
      (clock : Clock float) (job : Job float) (l : TenantBudgetLedger float)
      → has_evidence job.attempt ≡ false
      → is_terminal_status job.status ≡ true
      → process_deadline float clock job l ≡ (ok (outcome noop "already_terminal"), job, l)
  unfolding process_deadline
  over_facts clock job l u v = rw (u, v)

  unreserved :
      (job : Job float) (l : TenantBudgetLedger float)
      → has_reservation float job l ≡ false
      → lookup job.job_id l.reservations ≡ none
  unfolding has_reservation
  unreserved job l n = ground arith

  -- For a job that reserved its worst case from its tenant's balance, whatever its attempt and its
  -- status became, and if the float subtraction is undone by the addition: if it was sent, the
  -- deadline keeps the money reserved and sets the job to pending reconciliation, also if it had
  -- ended; if it was not sent and has ended, nothing changes; and if it was not sent and has not
  -- ended, it expires and every balance and reservation is as before the reservation.
  pub process_deadline-reserve :
      (clock : Clock float) (job : Job float) (l : TenantBudgetLedger float) (balance : F)
      (attempt : Option Attempt) (status : JobStatus)
      → has_reservation float job l ≡ false
      → lookup job.tenant_id l.balances ≡ some balance
      → lt (add balance (tolerance float)) (worst_case_cost float job.contract) ≡ false
      → (let amount = worst_case_cost float job.contract in
          add (sub balance amount) amount ≡ balance)
      → let (funded, reserved, held) = reserve_worst_case float job l in
        let started : Job float = record reserved { attempt = attempt; status = status } in
        let (answer, job', l') = process_deadline float clock started held in
        (WasSent attempt
          → (answer ≡ ok (outcome reconcile "deadline_but_execution_unknown"))
            × (job' ≡ record started {
              status = pending_reconciliation;
              cost_state = CostState.reconciliation_pending;
            })
            × (lookup job.tenant_id l'.balances
                ≡ some (sub balance (worst_case_cost float job.contract)))
            × (lookup job.job_id l'.reservations ≡ some (worst_case_cost float job.contract)))
        × (¬ WasSent attempt
            → HasEnded status
            → (answer ≡ ok (outcome noop "already_terminal")) × (job' ≡ started) × (l' ≡ held))
        × (¬ WasSent attempt
            → ¬ HasEnded status
            → (answer ≡ ok (ended expired "expired_no_execution"))
              × (job' ≡ record started {
                status = expired;
                reserved_cost = none;
                cost_state = CostState.no_cost;
              })
              × ((tenant : String) → lookup tenant l'.balances ≡ lookup tenant l.balances)
              × ((id : String) → lookup id l'.reservations ≡ lookup id l.reservations))
  process_deadline-reserve clock job l balance attempt status n b h exact =
      let amount = worst_case_cost float job.contract in
      let rest = sub balance amount in
      let paid = insert job.tenant_id rest l.balances in
      let held = insert job.job_id amount l.reservations in
      let self = lookup-insert_self job.tenant_id rest l.balances in
      let kept = lookup-insert_self job.job_id amount l.reservations in
      let free = unreserved job l n in
      let funded : TenantBudgetLedger float = record { balances = paid; reservations = held } in
      let started : Job float = record job {
        reserved_cost = some amount;
        cost_state = CostState.reserved;
        attempt = attempt;
        status = status;
      } in
      rw (reserved_facts float job l balance n b h) (
        (λ sent.
            rw (sent_facts clock started funded (WasSent-has_evidence attempt sent))
              (refl, refl, self, kept)),
        (λ unsent over.
            rw
              (over_facts clock started funded (unsent_evidence attempt unsent)
                ((is_terminal_status-HasEnded status).1 over))
              (refl, refl, refl)),
        (λ unsent live.
            rw
              (expired_facts clock started funded rest amount (unsent_evidence attempt unsent)
                (live_status status live) self kept)
              (
                refl,
                refl,
                (λ tenant. ground (
                  arith,
                  lookup-insert job.tenant_id tenant (add rest amount) paid,
                  lookup-insert job.tenant_id tenant rest l.balances,
                )),
                (λ id. ground (
                  arith,
                  free,
                  lookup-without job.job_id id held,
                  lookup-insert job.job_id id amount l.reservations,
                )),
              )),
      )
