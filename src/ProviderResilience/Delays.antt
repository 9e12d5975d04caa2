-- ===== src/ProviderResilience/Delays.antt =====
-- When the next attempt is made (`backoff_delay_seconds` and `compute_next_attempt_at` of
-- projects/ai-backend-data-layer/api/day56_provider_resilience.py). The random numbers that a call
-- draws are `rand 0`, `rand 1`, ... in their order.
use ai_backend_engineer_hand.Prelude.{
  ℕ, ◌-◌, ◌^◌, Option, none, some, Result, ok, ◌>>=◌, ltb, Float, Clock, min_float, if◌then◌else◌,
}

module _ (float : Float) where
  open float use {F, lt, add, sub, mul, ratio, round_6, mul_int}

  -- `2 ** max(0, attempt_number - 1)` is an integer: its product with a float raises if it is too
  -- large for one.
  unfoldable pub backoff_delay_seconds : ℕ → (base cap jitter : F) → (ℕ → F) → Result F
  backoff_delay_seconds attempt_number base cap jitter rand = do
    product ← mul_int base (2 ^ (attempt_number - 1))
    let raw = min_float float cap product
    ok (round_6 (add (mul raw (sub (ratio 1 1) jitter)) (mul (mul raw jitter) (rand 0))))

  -- The call with the default base 1.0, cap 60.0 and jitter 1.0.
  abbrev pub default_backoff : ℕ → (ℕ → F) → Result F
  default_backoff n rand = backoff_delay_seconds n (ratio 1 1) (ratio 60 1) (ratio 1 1) rand

  module _ (clock : Clock float) where
    open clock use {add_seconds}

    -- The window above the floor, if the caller gives none.
    abbrev pub jitter_window : ℕ → Option F → Result F
    jitter_window n none = default_backoff n (λ draw. ratio 1 1)
    jitter_window n (some window) = ok window

    unfoldable pub compute_next_attempt_at :
        (now attempt_number : ℕ) (retry_after_seconds jitter_window_seconds : Option F)
        → (ℕ → F)
        → Result ℕ
    compute_next_attempt_at now n retry_after window rand = do
      backoff ← default_backoff n rand
      candidate ← add_seconds now backoff
      elim retry_after [
        | none ↦ ok candidate
        | some seconds ↦ do
          earliest ← add_seconds now seconds
          if ltb earliest candidate
              then ok candidate
              else do w ← jitter_window n window; add_seconds earliest (mul w (rand 1))
      ]
