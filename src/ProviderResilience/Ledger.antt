-- ===== src/ProviderResilience/Ledger.antt =====
-- `TenantBudgetLedger` (projects/ai-backend-data-layer/api/day56_provider_resilience.py): the ledger
-- and the job change together. `balances[tenant] += x` raises a KeyError for a tenant without a
-- balance; what a call changed before it raised stays changed.
use ai_backend_engineer_hand.Prelude.{
  String, Bool, true, false, none, some, Result, ok, raised, key_error, Dict, lookup, insert,
  without, is_some, Float, if◌then◌else◌,
}
use ai_backend_engineer_hand.ProviderResilience.Circuit.{get_or}
use ai_backend_engineer_hand.ProviderResilience.Jobs.{CostState, Job, worst_case_cost}

pub data SettleOutcome : Type 0 where
  settled overage_reconcile : SettleOutcome

module _ (float : Float) where
  open float use {F, lt, le, add, sub, ratio, round_6}

  pub record TenantBudgetLedger : Type 0 where
    pub balances : Dict F
    pub reservations : Dict F

  -- `0.0` and `1e-9`.
  abbrev pub no_money : F
  no_money = ratio 0 1

  abbrev pub tolerance : F
  tolerance = ratio 1 1000000000

  unfoldable pub can_afford : String → F → TenantBudgetLedger → Bool
  can_afford tenant amount l =
      le amount (add (get_or no_money (lookup tenant l.balances)) tolerance)

  unfoldable pub has_reservation : Job float → TenantBudgetLedger → Bool
  has_reservation job l = is_some (lookup job.job_id l.reservations)

  unfoldable pub reserve_worst_case :
      Job float → TenantBudgetLedger → Result Bool × Job float × TenantBudgetLedger
  reserve_worst_case job l =
      if is_some (lookup job.job_id l.reservations)
      then (ok true, job, l)
      else let amount = worst_case_cost float job.contract in
        if lt (add (get_or no_money (lookup job.tenant_id l.balances)) tolerance) amount
        then (ok false, job, l)
        else elim (lookup job.tenant_id l.balances) [
          | none ↦ (raised (key_error job.tenant_id), job, l)
          | some balance ↦ (
            ok true,
            record job { reserved_cost = some amount; cost_state = CostState.reserved },
            record {
              balances = insert job.tenant_id (sub balance amount) l.balances;
              reservations = insert job.job_id amount l.reservations;
            },
          )
        ]

  unfoldable pub settle_actual :
      Job float → F → TenantBudgetLedger → Result SettleOutcome × Job float × TenantBudgetLedger
  settle_actual job actual l =
      let held = get_or no_money (lookup job.job_id l.reservations) in
      let popped = record l { reservations = without job.job_id l.reservations } in
      let paid = record job {
        settled_cost = some actual;
        cost_overage = none;
        cost_state = CostState.settled;
      } in
      let unused = round_6 (sub held actual) in
      if lt (add held tolerance) actual
      then (
        ok overage_reconcile,
        record job {
          settled_cost = some held;
          cost_overage = some (round_6 (sub actual held));
          cost_state = CostState.reconciliation_pending;
        },
        popped,
      )
      else if lt no_money unused
      then elim (lookup job.tenant_id l.balances) [
        | none ↦ (raised (key_error job.tenant_id), job, popped)
        | some balance ↦ (
          ok settled,
          paid,
          record popped { balances = insert job.tenant_id (add balance unused) l.balances },
        )
      ]
      else (ok settled, paid, popped)

  unfoldable pub release_job_reservation :
      Job float → TenantBudgetLedger → Result (Unit {0}) × Job float × TenantBudgetLedger
  release_job_reservation job l =
      let held = get_or no_money (lookup job.job_id l.reservations) in
      let popped = record l { reservations = without job.job_id l.reservations } in
      elim (lookup job.tenant_id l.balances) [
        | none ↦ (raised (key_error job.tenant_id), job, popped)
        | some balance ↦ (
          ok tt,
          record job { cost_state = CostState.no_cost; reserved_cost = none },
          record popped { balances = insert job.tenant_id (add balance held) l.balances },
        )
      ]

  unfoldable pub hold_for_reconciliation : Job float → Job float
  hold_for_reconciliation job = record job { cost_state = CostState.reconciliation_pending }

  -- `available`.
  unfoldable pub available_balance : String → TenantBudgetLedger → F
  available_balance tenant l = round_6 (get_or no_money (lookup tenant l.balances))
