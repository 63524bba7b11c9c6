-- ===== src/RateLimiter.antt =====
-- The rate limiter of the exchange's API: packages/bybit_adapter/src/bybit_adapter/rate_limiter.py.
-- Times and spans are whole microseconds, as of `datetime`; `datetime.min` is 0. Each call takes the
-- time that its `datetime.now` gives.
pub mod Waiting
pub mod Backoff
mod Tests
use grid_bot_validation.Prelude.{
  ℕ, suc, ◌+◌, ◌-◌, ◌*◌, ◌^◌, ltb, leb, Bool, true, false, List, [], ◌∷◌, ◌++◌, length,
  if◌then◌else◌,
}
use grid_bot_validation.Outcome.{Result, ok, err, Error, Action}

pub data RequestType : Type 0 where
  order query : RequestType

-- `RateLimitConfig`, its seconds in microseconds.
pub record RateLimitConfig : Type 0 where
  pub order_rate : ℕ
  pub query_rate : ℕ
  pub window : ℕ
  pub backoff_base : ℕ
  pub max_backoff : ℕ

-- The deques with the oldest stamp first.
pub record RateLimiter : Type 0 where
  pub config : RateLimitConfig
  pub order_timestamps : List ℕ
  pub query_timestamps : List ℕ
  pub backoff_until : ℕ
  pub consecutive_429s : ℕ

abbrev pub init : RateLimitConfig → RateLimiter
init config = record {
  config = config;
  order_timestamps = [];
  query_timestamps = [];
  backoff_until = 0;
  consecutive_429s = 0;
}

-- The loop of `_cleanup_old_timestamps` on one deque: `timestamps[0] < now - window`.
unfoldable pub pop_old : (now window : ℕ) → List ℕ → List ℕ
pop_old now window [] = []
pop_old now window (t ∷ ts) =
    let rest = pop_old now window ts in if ltb (t + window) now then rest else t ∷ ts

unfoldable pub cleanup_old_timestamps : ℕ → RateLimiter → RateLimiter
cleanup_old_timestamps now s = record s {
  order_timestamps = pop_old now s.config.window s.order_timestamps;
  query_timestamps = pop_old now s.config.window s.query_timestamps;
}

abbrev pub get_timestamps : RequestType → RateLimiter → List ℕ
get_timestamps RequestType.order s = s.order_timestamps
get_timestamps RequestType.query s = s.query_timestamps

abbrev pub get_limit : RequestType → RateLimiter → ℕ
get_limit RequestType.order s = s.config.order_rate
get_limit RequestType.query s = s.config.query_rate

abbrev pub get_current_count : RequestType → RateLimiter → ℕ
get_current_count r s = length (get_timestamps r s)

unfoldable pub can_request : RequestType → ℕ → RateLimiter → Bool × RateLimiter
can_request r now s =
    if ltb now s.backoff_until
    then (false, s)
    else let s' = cleanup_old_timestamps now s in
      (ltb (get_current_count r s') (get_limit r s'), s')

unfoldable pub record_request : RequestType → ℕ → RateLimiter → RateLimiter
record_request RequestType.order now s = record s {
  order_timestamps = s.order_timestamps ++ now ∷ [];
}
record_request RequestType.query now s = record s {
  query_timestamps = s.query_timestamps ++ now ∷ [];
}

-- `max(0.0, …)` of the oldest stamp's distance from leaving the window.
abbrev pub wait_for : (now window : ℕ) → List ℕ → ℕ
wait_for now window [] = 0
wait_for now window (oldest ∷ ts) = (oldest + window) - now

unfoldable pub wait_time : RequestType → ℕ → RateLimiter → ℕ × RateLimiter
wait_time r now s =
    if ltb now s.backoff_until
    then (s.backoff_until - now, s)
    else let s' = cleanup_old_timestamps now s in
      if ltb (get_current_count r s') (get_limit r s')
      then (0, s')
      else (wait_for now s'.config.window (get_timestamps r s'), s')

abbrev pub min_of : ℕ → ℕ → ℕ
min_of a b = if ltb b a then b else a

-- `self.config.backoff_base * (2 ** (n - 1))` makes a float of the power, which raises from 2 ** 1024
-- on. The count is already increased then.
unfoldable pub record_rate_limit_hit : ℕ → Action RateLimiter (Unit {0})
record_rate_limit_hit now s =
    let s' = record s { consecutive_429s = s.consecutive_429s + 1 } in
    if leb 1024 (s'.consecutive_429s - 1) then (err Error.float_overflow, s') else (
      ok tt,
      record s' {
        backoff_until =
            now
            + min_of (s'.config.backoff_base * 2 ^ (s'.consecutive_429s - 1)) s'.config.max_backoff;
      },
    )

abbrev pub record_success : RateLimiter → RateLimiter
record_success s = record s { consecutive_429s = 0 }

abbrev pub get_backoff_remaining : ℕ → RateLimiter → ℕ
get_backoff_remaining now s = if leb s.backoff_until now then 0 else s.backoff_until - now

unfoldable pub get_available_capacity : RequestType → ℕ → RateLimiter → ℕ × RateLimiter
get_available_capacity r now s =
    if ltb now s.backoff_until
    then (0, s)
    else let s' = cleanup_old_timestamps now s in (get_limit r s' - get_current_count r s', s')

abbrev pub reset : RateLimiter → RateLimiter
reset s = init s.config
