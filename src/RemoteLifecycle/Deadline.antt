-- ===== src/RemoteLifecycle/Deadline.antt =====
-- `DeadlineBudget` of projects/ai-agent/src/mcp_remote_lifecycle.py.
use ai_backend_engineer_hand.Prelude.{
  ◌≡◌, false, not, ◌||◌, Result, ok, raised, raise_if, value_error, ◌>>◌, Float, min_float,
  max_float, if◌then◌else◌, arith,
}

module _ (float : Float) where
  open float use {F, lt, le, sub, ratio, is_finite, lt_asymm}

  pub record DeadlineBudget : Type 0 where
    pub deadline : F
    pub cleanup_reserve_seconds : F

  -- `DeadlineBudget.__post_init__`.
  unfoldable pub check_deadline : DeadlineBudget → Result DeadlineBudget
  check_deadline b = do
    raise_if (not (is_finite b.deadline)) "deadline must be finite"
    raise_if (not (is_finite b.cleanup_reserve_seconds) || lt b.cleanup_reserve_seconds (ratio 0 1))
        "cleanup reserve must be finite and non-negative"
    ok b

  unfoldable pub remaining : DeadlineBudget → F → F
  remaining b now = max_float float (ratio 0 1) (sub (sub b.deadline now) b.cleanup_reserve_seconds)

  unfoldable pub stage_timeout : DeadlineBudget → F → F → Result F
  unfolding remaining
  stage_timeout b now configured =
      if not (is_finite configured) || le configured (ratio 0 1)
      then raised (value_error "configured timeout must be finite and positive")
      else ok (min_float float configured (remaining b now))

  -- A timeout that is returned for a stage is not above what is configured and not above what the
  -- operation has left.
  pub stage_timeout_bounds :
      (b : DeadlineBudget) (now configured t : F)
      → stage_timeout b now configured ≡ ok t
      → (lt configured t ≡ false) × (lt (remaining b now) t ≡ false)
  unfolding stage_timeout
  stage_timeout_bounds b now configured t h = ground (
    arith,
    lt_asymm configured configured,
    lt_asymm (remaining b now) configured,
    lt_asymm (remaining b now) (remaining b now),
  )
