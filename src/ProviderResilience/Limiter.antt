-- ===== src/ProviderResilience/Limiter.antt =====
-- `SharedRateLimiter` (projects/ai-backend-data-layer/api/day56_provider_resilience.py). A negative
-- capacity grants no permit, as the capacity 0 does.
use ai_backend_engineer_hand.Prelude.{ℕ, ◌+◌, ◌-◌, Bool, true, false, not, leb, ltb, if◌then◌else◌}

pub record SharedRateLimiter : Type 0 where
  pub capacity : ℕ
  pub used : ℕ
  pub available : Bool

unfoldable pub try_acquire : SharedRateLimiter → Bool × SharedRateLimiter
try_acquire l =
    if not l.available
    then (false, l)
    else if leb l.capacity l.used
    then (false, l)
    else (true, record l { used = l.used + 1 })

unfoldable pub release : SharedRateLimiter → SharedRateLimiter
release l = if ltb 0 l.used then record l { used = l.used - 1 } else l
