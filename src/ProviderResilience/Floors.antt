-- ===== src/ProviderResilience/Floors.antt =====
-- `compute_next_attempt_at` (projects/ai-backend-data-layer/api/day56_provider_resilience.py) never
-- goes below what the provider asked for.
use ai_backend_engineer_hand.Prelude.{
  ℕ, ◌≡◌, true, Option, some, ok, Result-cases, leb, Float, Clock, arith, inl, inr,
}
use ai_backend_engineer_hand.ProviderResilience.Delays.{jitter_window, compute_next_attempt_at}

module _ (float : Float) (clock : Clock float) where
  open float use {F, le, mul, ratio}
  open clock use {add_seconds, add_seconds-ge}

  -- If the drawn jitter is not negative, a computed next attempt is never before the time that the
  -- provider's Retry-After allows.
  next_attempt-after_floor :
      (now n : ℕ) (seconds : F) (window : Option F) (rand : ℕ → F) (earliest next : ℕ)
      → ((w : F)
          → jitter_window float clock n window ≡ ok w
          → le (ratio 0 1) (mul w (rand 1)) ≡ true)
      → add_seconds now seconds ≡ ok earliest
      → compute_next_attempt_at float clock now n (some seconds) window rand ≡ ok next
      → leb earliest next ≡ true
  unfolding compute_next_attempt_at
  next_attempt-after_floor now n seconds window rand earliest next draw e h =
      elim (Result-cases (jitter_window float clock n window)) [
        | inl (w, given) ↦
            ground (arith, add_seconds-ge earliest next (mul w (rand 1)) (draw w given))
        | inr (error, failed) ↦ ground arith
      ]
