-- ===== src/ProviderResilience/Balances.antt =====
-- The tenants' money (`TenantBudgetLedger` of
-- projects/ai-backend-data-layer/api/day56_provider_resilience.py).
use ai_backend_engineer_hand.Prelude.{
  String, ◌≡◌, ◌≢◌, ◌↔◌, ◌⊎◌, inl, inr, true, false, none, some, ok, Option-cases, string_eq,
  lookup, insert, lookup-insert, lookup-insert_self, lookup-without, is_some, Float, arith,
}
use ai_backend_engineer_hand.ProviderResilience.Circuit.{get_or}
use ai_backend_engineer_hand.ProviderResilience.Jobs.{CostState, Job, worst_case_cost}
use ai_backend_engineer_hand.ProviderResilience.Ledger.{
  SettleOutcome, TenantBudgetLedger, no_money, tolerance, has_reservation, reserve_worst_case,
  settle_actual, release_job_reservation,
}

module _ (float : Float) where
  open float use {F, lt, add, sub, round_6}

  -- The tenant can pay the worst case of the job.
  abbrev pub Affords : Job float → TenantBudgetLedger float → Type 0
  Affords job l =
      (is_some (lookup job.tenant_id l.balances) ≡ true)
      × (lt (add (get_or (no_money float) (lookup job.tenant_id l.balances)) (tolerance float))
            (worst_case_cost float job.contract)
          ≡ false)

  pub reserved_facts :
      (job : Job float) (l : TenantBudgetLedger float) (balance : F)
      → has_reservation float job l ≡ false
      → lookup job.tenant_id l.balances ≡ some balance
      → lt (add balance (tolerance float)) (worst_case_cost float job.contract) ≡ false
      → let amount = worst_case_cost float job.contract in
        reserve_worst_case float job l ≡ (
          ok true,
          record job { reserved_cost = some amount; cost_state = CostState.reserved },
          record {
            balances = insert job.tenant_id (sub balance amount) l.balances;
            reservations = insert job.job_id amount l.reservations;
          },
        )
  unfolding reserve_worst_case has_reservation
  reserved_facts job l balance n b h = ground arith

  -- Releasing a reservation undoes it: for a job without one whose tenant can pay its worst case,
  -- and if the float subtraction is undone by the addition at that balance, reserving and then
  -- releasing returns every balance and every reservation as it was, and the job without cost.
  pub release-reserve :
      (job : Job float) (l : TenantBudgetLedger float) (balance : F)
      → has_reservation float job l ≡ false
      → lookup job.tenant_id l.balances ≡ some balance
      → lt (add balance (tolerance float)) (worst_case_cost float job.contract) ≡ false
      → (let amount = worst_case_cost float job.contract in
          add (sub balance amount) amount ≡ balance)
      → let (funded, job₁, l₁) = reserve_worst_case float job l in
        let (done, job₂, l₂) = release_job_reservation float job₁ l₁ in
        (funded ≡ ok true)
        × (done ≡ ok tt)
        × (job₂ ≡ record job { reserved_cost = none; cost_state = CostState.no_cost })
        × ((tenant : String) → lookup tenant l₂.balances ≡ lookup tenant l.balances)
        × ((id : String) → lookup id l₂.reservations ≡ lookup id l.reservations)
  unfolding release_job_reservation reserve_worst_case has_reservation
  release-reserve job l balance n b h exact =
      let amount = worst_case_cost float job.contract in
      let rest = sub balance amount in
      let held = insert job.job_id amount l.reservations in
      let paid = insert job.tenant_id rest l.balances in
      let self = lookup-insert_self job.tenant_id rest l.balances in
      let kept = lookup-insert_self job.job_id amount l.reservations in
      (
        ground arith,
        ground (arith, self),
        ground (arith, self),
        λ tenant. ground (
          arith,
          self,
          kept,
          lookup-insert job.tenant_id tenant (add rest amount) paid,
          lookup-insert job.tenant_id tenant rest l.balances,
        ),
        λ id. ground (
          arith,
          self,
          lookup-without job.job_id id held,
          lookup-insert job.job_id id amount l.reservations,
        ),
      )

  -- idempotent
  reserve_worst_case-again :
      (job : Job float) (l : TenantBudgetLedger float)
      → let (funded, job', l') = reserve_worst_case float job l in
        ((funded ≡ ok true) ↔ ((has_reservation float job l ≡ true) ⊎ Affords job l))
        × (funded ≡ ok true → reserve_worst_case float job' l' ≡ (ok true, job', l'))
        × (funded ≢ ok true → (job' ≡ job) × (l' ≡ l))
        × ((tenant : String)
            → tenant ≢ job.tenant_id
            → lookup tenant l'.balances ≡ lookup tenant l.balances)
        × ((id : String) → id ≢ job.job_id → lookup id l'.reservations ≡ lookup id l.reservations)
  unfolding reserve_worst_case has_reservation
  reserve_worst_case-again job l =
      let amount = worst_case_cost float job.contract in
      elim (Option-cases (lookup job.tenant_id l.balances)) [
        | inl e ↦ (
          (λ h. ground arith, λ h. ground (arith, h)),
          ground arith,
          ground arith,
          ground arith,
          ground arith,
        )
        | inr (balance, e) ↦ (
          (λ h. ground arith, λ h. ground (arith, h)),
          ground (arith, lookup-insert_self job.job_id amount l.reservations),
          ground arith,
          λ tenant n.
              ground (arith, lookup-insert job.tenant_id tenant (sub balance amount) l.balances),
          λ id n. ground (arith, lookup-insert job.job_id id amount l.reservations),
        )
      ]

  -- settle
  settle_actual-once :
      (job : Job float) (actual : F) (l : TenantBudgetLedger float)
      → let held = get_or (no_money float) (lookup job.job_id l.reservations) in
        let (answer, job', l') = settle_actual float job actual l in
        (lookup job.job_id l'.reservations ≡ none)
        × ((id : String) → id ≢ job.job_id → lookup id l'.reservations ≡ lookup id l.reservations)
        × ((tenant : String)
            → tenant ≢ job.tenant_id
            → lookup tenant l'.balances ≡ lookup tenant l.balances)
        × (answer ≡ ok SettleOutcome.settled
            → (job'.settled_cost ≡ some actual) × (lt (add held (tolerance float)) actual ≡ false))
        × (answer ≡ ok SettleOutcome.overage_reconcile
            → (job'.settled_cost ≡ some held)
              × (job'.cost_state ≡ CostState.reconciliation_pending)
              × (l'.balances ≡ l.balances))
  unfolding settle_actual
  settle_actual-once job actual l =
      let held = get_or (no_money float) (lookup job.job_id l.reservations) in
      (
        ground (arith, lookup-without job.job_id job.job_id l.reservations),
        λ id n. ground (arith, lookup-without job.job_id id l.reservations),
        λ tenant n. elim (Option-cases (lookup job.tenant_id l.balances)) [
          | inl e ↦ ground arith
          | inr (balance, e) ↦ ground (
            arith,
            lookup-insert job.tenant_id tenant (add balance (round_6 (sub held actual))) l.balances,
          )
        ],
        λ h. ground (arith, h),
        λ h. ground (arith, h),
      )
