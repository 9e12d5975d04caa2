-- ===== src/AgentStateMachine/Budget.antt =====
-- `BudgetSnapshot` and `ContextBudget` of projects/ai-agent/src/agent_state_machine.py. A value is
-- built from integers and raises on a negative one; once built, its fields are natural numbers. What
-- is left of a limit may be negative.
pub mod Tests
use ai_backend_engineer_hand.Prelude.{
  ℕ, zero, ◌+◌, ◌≤◌, ◌≡◌, Bool, true, false, ◌&&◌, ◌||◌, List, [], ◌∷◌, Result, ok, raised,
  value_error, ℤ, pos, negsuc, pos_part, ◌-ℤ◌, leb, ltb_ℤ, if◌then◌else◌, arith,
}

pub record BudgetSnapshot : Type 0 where
  pub step_limit : ℕ
  pub steps_used : ℕ
  pub token_limit : ℕ
  pub settled_tokens : ℕ
  pub held_token_reservations : ℕ
  pub cost_limit : ℕ
  pub settled_cost : ℕ
  pub held_cost_reservations : ℕ

-- `any(value < 0 for value in values)`.
unfoldable pub any_negative : List ℤ → Bool
any_negative [] = false
any_negative (v ∷ vs) = ltb_ℤ v (pos 0) || any_negative vs

-- `BudgetSnapshot(...)`.
unfoldable pub budget_snapshot : (a b c d e f g h : ℤ) → Result BudgetSnapshot
unfolding any_negative
budget_snapshot a b c d e f g h =
    if any_negative (a ∷ b ∷ c ∷ d ∷ e ∷ f ∷ g ∷ h ∷ [])
    then raised (value_error "budget values must be non-negative")
    else ok (record {
      step_limit = pos_part a;
      steps_used = pos_part b;
      token_limit = pos_part c;
      settled_tokens = pos_part d;
      held_token_reservations = pos_part e;
      cost_limit = pos_part f;
      settled_cost = pos_part g;
      held_cost_reservations = pos_part h;
    })

unfoldable pub remaining_steps : BudgetSnapshot → ℤ
remaining_steps b = pos b.step_limit -ℤ pos b.steps_used

unfoldable pub available_tokens : BudgetSnapshot → ℤ
available_tokens b = pos b.token_limit -ℤ pos b.settled_tokens -ℤ pos b.held_token_reservations

unfoldable pub available_cost : BudgetSnapshot → ℤ
available_cost b = pos b.cost_limit -ℤ pos b.settled_cost -ℤ pos b.held_cost_reservations

pub record ContextBudget : Type 0 where
  pub input_tokens : ℕ
  pub reserved_output_tokens : ℕ
  pub safety_margin : ℕ
  pub permitted_context_budget : ℕ
  pub provider_context_limit : ℕ

-- `ContextBudget(...)`.
unfoldable pub context_budget : (a b c d e : ℤ) → Result ContextBudget
unfolding any_negative
context_budget a b c d e =
    if any_negative (a ∷ b ∷ c ∷ d ∷ e ∷ [])
    then raised (value_error "context budget values must be non-negative")
    else ok (record {
      input_tokens = pos_part a;
      reserved_output_tokens = pos_part b;
      safety_margin = pos_part c;
      permitted_context_budget = pos_part d;
      provider_context_limit = pos_part e;
    })

unfoldable pub required_capacity : ContextBudget → ℕ
required_capacity c = c.input_tokens + c.reserved_output_tokens + c.safety_margin

-- `ContextBudget.admitted`.
unfoldable pub admitted : ContextBudget → Bool
unfolding required_capacity
admitted c =
    leb (required_capacity c) c.permitted_context_budget
    && leb c.permitted_context_budget c.provider_context_limit
