-- ===== src/RateLimiter/Tests.antt =====
-- Concrete runs of the rate limiter, and the theorems at inputs that meet their hypotheses.
use grid_bot_validation.Prelude.{◌+◌, ◌≡◌, refl, true, false, [], ◌∷◌, arith}
use grid_bot_validation.RateLimiter.{
  RequestType, RateLimitConfig, RateLimiter, init, can_request, wait_time, cleanup_old_timestamps,
  pop_old,
}
use grid_bot_validation.RateLimiter.Waiting.{can_request-after_wait}

abbrev config : RateLimitConfig
config = record {
  order_rate = 2;
  query_rate = 20;
  window = 1_000_000;
  backoff_base = 1_000_000;
  max_backoff = 60_000_000;
}

abbrev limiter : RateLimiter
limiter = record (init config) { order_timestamps = 0 ∷ 400_000 ∷ [] }

-- Exactly at the end of the window the wait is 0, and yet no request may be made.
boundary_run :
    ((wait_time RequestType.order 1_000_000 limiter).0 ≡ 0)
    × ((can_request RequestType.order 1_000_000 limiter).0 ≡ false)
unfolding wait_time can_request cleanup_old_timestamps pop_old
boundary_run = (refl, refl)

can_request-after_wait_example :
    let (wait, s') = wait_time RequestType.order 500_000 limiter in
    (can_request RequestType.order (500_000 + wait + 1) s').0 ≡ true
can_request-after_wait_example =
    can_request-after_wait RequestType.order 500_000 limiter (omega arith) (omega arith)
      (omega arith)
