-- ===== src/AgentStateMachine/Budget/Tests.antt =====
-- The budget tests of the code, read as inequalities between natural numbers.
use ai_backend_engineer_hand.Prelude.{
  ℕ, ◌+◌, ◌≡◌, leb, ltb, ltb_ℤ, leb_ℤ, pos, ◌-ℤ◌, -ℤ_parts, arith,
}
use ai_backend_engineer_hand.AgentStateMachine.Budget.{
  BudgetSnapshot, remaining_steps, available_tokens, available_cost,
}

pub remaining_steps_lem :
    (b : BudgetSnapshot) → leb_ℤ (remaining_steps b) (pos 0) ≡ leb b.step_limit b.steps_used
unfolding remaining_steps ◌-ℤ◌
remaining_steps_lem b = ground arith

pub available_tokens_lem :
    (b : BudgetSnapshot) (n : ℕ)
    → ltb_ℤ (available_tokens b) (pos n)
      ≡ ltb b.token_limit (b.settled_tokens + b.held_token_reservations + n)
unfolding available_tokens
available_tokens_lem b n = ground (
  arith,
  -ℤ_parts (pos b.token_limit) (pos b.settled_tokens),
  -ℤ_parts (pos b.token_limit -ℤ pos b.settled_tokens) (pos b.held_token_reservations),
)

pub available_cost_lem :
    (b : BudgetSnapshot) (n : ℕ)
    → ltb_ℤ (available_cost b) (pos n)
      ≡ ltb b.cost_limit (b.settled_cost + b.held_cost_reservations + n)
unfolding available_cost
available_cost_lem b n = ground (
  arith,
  -ℤ_parts (pos b.cost_limit) (pos b.settled_cost),
  -ℤ_parts (pos b.cost_limit -ℤ pos b.settled_cost) (pos b.held_cost_reservations),
)
