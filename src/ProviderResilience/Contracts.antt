-- ===== src/ProviderResilience/Contracts.antt =====
-- The execution contract against a degradation, and what a response proves
-- (projects/ai-backend-data-layer/api/day56_provider_resilience.py).
use ai_backend_engineer_hand.Prelude.{
  refl, ne_by_test, Result, raise_if, ◌>>◌, ℕ, String, ◌≡◌, ◌↔◌, ◌⊎◌, inl, inr, ◌≤◌, ◌<◌, ◌≢◌, Bool,
  true, false, Option, none, some, ok, raised, value_error, not, Option-cases, string_eq, nat_eq,
  Float, arith,
}
use ai_backend_engineer_hand.ProviderResilience.Jobs.{
  is_foreign_model, is_below, ExecutionContract, apply_authorized_degradation, is_truthy, is_false,
  classify_execution_certainty, can_ordinary_retry,
}

-- retry
can_ordinary_retry_iff :
    (status : ℕ) (request_id : Option String) (accepted_header : Option Bool)
    → (can_ordinary_retry (classify_execution_certainty status request_id accepted_header) ≡ true)
      ↔ ((status ≡ 429)
          × (accepted_header ≡ some false)
          × ((request_id ≡ none) ⊎ (request_id ≡ some "")))
unfolding can_ordinary_retry classify_execution_certainty is_truthy is_false
can_ordinary_retry_iff status request_id accepted_header = ground arith

-- Three checks in a row raise the first that fails.
three_checks :
    {A : Type 0} (a b c : Bool) (first second third : String) (value : A)
    → first ≢ second
    → first ≢ third
    → second ≢ third
    → let answer : Result A =
        raise_if a first >> (raise_if b second >> (raise_if c third >> ok value)) in
      ((answer ≡ ok value) ↔ ((a ≡ false) × (b ≡ false) × (c ≡ false)))
      × ((answer ≡ raised (value_error first)) ↔ (a ≡ true))
      × ((answer ≡ raised (value_error second)) ↔ ((a ≡ false) × (b ≡ true)))
      × ((answer ≡ raised (value_error third)) ↔ ((a ≡ false) × (b ≡ false) × (c ≡ true)))
three_checks true b c first second third value n m k = ground arith
three_checks false true c first second third value n m k = ground arith
three_checks false false true first second third value n m k = ground arith
three_checks false false false first second third value n m k = ground arith

module _ (float : Float) where
  -- The model passes: the contract names no floor model, so that any model does, or the model is the
  -- floor's or the contract's own.
  abbrev pub PassesModel : ExecutionContract float → String → Type 0
  PassesModel c target_model =
      (c.min_model ≡ none)
      ⊎ ((floor : String) × (c.min_model ≡ some floor)
          × ((target_model ≡ floor) ⊎ (target_model ≡ c.model)))

  -- The tokens pass: the contract names no floor, or they are not below it.
  abbrev pub PassesTokens : ExecutionContract float → ℕ → Type 0
  PassesTokens c target_max_tokens =
      (c.min_max_tokens ≡ none)
      ⊎ ((floor : ℕ) × (c.min_max_tokens ≡ some floor) × (floor ≤ target_max_tokens))

  -- A degraded contract, which differs in model and tokens only, is returned exactly if degradation
  -- is allowed, the model is the floor's or the contract's own or no floor model is named, and the
  -- tokens are not below the floor if one is named; where no floor model is named, any model
  -- passes. Each of the three ValueErrors is raised exactly if its condition is the first to fail.
  pub degradation-raises_iff :
      (c : ExecutionContract float) (target_model : String) (target_max_tokens : ℕ)
      → let answer = apply_authorized_degradation float c target_model target_max_tokens in
        ((answer ≡ ok (record c { model = target_model; max_tokens = target_max_tokens })) ↔ (
          (c.degradation_allowed ≡ true)
          × PassesModel c target_model
          × PassesTokens c target_max_tokens))
        × ((answer ≡ raised (value_error "degradation not authorized by the persisted contract"))
            ↔ (c.degradation_allowed ≡ false))
        × ((answer ≡ raised (value_error "target model is not an authorized degradation target"))
            ↔ ((c.degradation_allowed ≡ true)
                × ((floor : String) × (c.min_model ≡ some floor)
                    × (target_model ≢ floor)
                    × (target_model ≢ c.model))))
        × ((answer ≡ raised (value_error "target max_tokens below the authorized floor")) ↔ (
            (c.degradation_allowed ≡ true)
            × PassesModel c target_model
            × ((floor : ℕ) × (c.min_max_tokens ≡ some floor) × (target_max_tokens < floor))))
  unfolding apply_authorized_degradation
  degradation-raises_iff c target_model target_max_tokens =
      let checks =
        three_checks (not c.degradation_allowed)
          (is_foreign_model float c.min_model c.model target_model)
          (is_below float c.min_max_tokens target_max_tokens)
          "degradation not authorized by the persisted contract"
          "target model is not an authorized degradation target"
          "target max_tokens below the authorized floor"
          (record c { model = target_model; max_tokens = target_max_tokens }) (ne_by_test _ _ refl)
          (ne_by_test _ _ refl) (ne_by_test _ _ refl) in
      elim (Option-cases c.min_model) [
        | inl e ↦ elim (Option-cases c.min_max_tokens) [
          | inl t ↦ ground (arith, checks)
          | inr (n, t) ↦ ground (arith, checks)
        ]
        | inr (m, e) ↦ elim (Option-cases c.min_max_tokens) [
          | inl t ↦ ground (arith, checks)
          | inr (n, t) ↦ ground (arith, checks)
        ]
      ]
