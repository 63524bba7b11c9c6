-- ===== src/Runner.antt =====
-- The strategy runner, apps/gridbot/src/gridbot/runner.py: the orders that it tracks, and its way from
-- an intent of the engine to the exchange. Times are nanoseconds of the monotonic clock, in the breaker
-- too. Log lines are left out, with their throttles and the counters that only they read; a callback is
-- the log of its calls.
pub mod Orders
pub mod Guard
pub mod Admit
pub mod Place
pub mod Batch
pub mod Executions
pub mod Keeps
pub mod Invariant
pub mod Distinct
pub mod Closing
pub mod Retries
pub mod Latch
mod Tests
use grid_bot_validation.Prelude.{ℕ, Bool, true, false, Option, none, some, List}
use grid_bot_validation.Prelude.Int.{ℤ}
use grid_bot_validation.Text.{Text}
use grid_bot_validation.Dict.{Dict}
use grid_bot_validation.Backtest.{OrderSide, OrderDirection}
use grid_bot_validation.SafetyCaps.{Reason}
use grid_bot_validation.TruncateBreaker.{TruncateBreaker}
use grid_bot_validation.Executor.{PlaceLimitIntent, CancelIntent, Answer, Exchange, IntentExecutor}

pub data TrackedStatus : Type 0 where
  pending placed filled cancelled failed : TrackedStatus

pub record TrackedOrder (D : Type 0) : Type 0 where
  pub client_order_id : Text
  pub order_id : Option Text
  pub intent : Option (PlaceLimitIntent D)
  pub status : TrackedStatus

-- An intent of the engine; the runner tells the reason 'duplicate' of a cancel from the others.
pub data GeneratedIntent (D : Type 0) : Type 0 where
  place : PlaceLimitIntent D → GeneratedIntent D
  cancel : (is_duplicate : Bool) → CancelIntent → GeneratedIntent D

-- An order as `get_limit_orders` lists it.
pub record LimitOrder (D : Type 0) : Type 0 where
  pub order_id : Option Text
  pub order_link_id : Text
  pub price : D
  pub qty : D
  pub side : OrderSide
  pub reduce_only : Bool

-- The lists under 'long' and 'short'
pub record Limits (D : Type 0) : Type 0 where
  pub long_orders : List (LimitOrder D)
  pub short_orders : List (LimitOrder D)

pub record RunnerConfig (D : Type 0) : Type 0 where
  pub dirty_refresh_enabled : Bool
  pub dirty_rest_refresh_min_interval : ℕ
  pub preflight_balance_check_enabled : Bool
  pub preflight_balance_buffer : D
  pub assumed_leverage : D
  pub divergence_detector_enabled : Bool
  pub divergence_failure_mix_window : ℕ
  pub divergence_failure_mix_threshold : ℕ
  pub truncate_breaker_reconcile : Bool
  pub wallet_ws_max_age : ℕ

-- What the runner's order path reads and writes. `safety_caps` is the object that the executor holds.
-- A dict with a key for each direction is a function. The last five fields are the calls of
-- `on_intent_failed`, `on_divergence_failure_mix` (their counts), `on_truncate_breaker_tripped`,
-- `on_retry_cancel_for_prefix` and the alerts of safety caps.
pub record StrategyRunner (D : Type 0) : Type 0 where
  pub config : RunnerConfig D
  pub tracked_orders : Dict (TrackedOrder D)
  pub executor : IntentExecutor
  pub truncate_breaker : TruncateBreaker D
  pub truncate_breaker_reconcile_count : ℕ
  pub long_size : D
  pub short_size : D
  pub total_position_value : ℤ
  pub available_balance : D
  pub leverage : OrderDirection → Option D
  pub position_dirty : OrderDirection → Bool
  pub last_dirty_rest_at : OrderDirection → Option ℕ
  pub last_rest_position_size : OrderDirection → Option D
  pub dirty_ws_mismatch_streak : OrderDirection → ℕ
  pub same_order_error : Bool
  pub placement_failure_window : List ℕ
  pub safety_cap_warn_last : Reason → Option ℕ
  pub failed_intents : List (GeneratedIntent D × Option Text)
  pub failure_mixes : List ℕ
  pub tripped_directions : List OrderDirection
  pub drained_prefixes : List Text
  pub cap_alerts : List Reason

-- An entry of `get_positions`: its positionIdx and its size, `none` where they do not parse.
pub record PositionEntry (D : Type 0) : Type 0 where
  pub position_idx : Option ℕ
  pub size : Option D

-- What stands outside the order path: the exchange with the clocks; the quantity that `_resolve_qty`
-- gives an intent; the REST client, if there is one; and the wallet's peek, if there is one, with
-- the balance and its age.
pub record Outside (D W : Type 0) : Type 0 where
  pub exchange : Exchange D W
  pub resolve_qty : StrategyRunner D → PlaceLimitIntent D → D
  pub get_positions : Option (W → Answer (List (PositionEntry D)) × W)
  pub wallet_provider : Option (W → Answer (Option (D × ℕ)))

abbrev pub RunState : (D W : Type 0) → Type 0
RunState D W = StrategyRunner D × W

abbrev pub same_direction : OrderDirection → OrderDirection → Bool
same_direction OrderDirection.long OrderDirection.long = true
same_direction OrderDirection.short OrderDirection.short = true
same_direction OrderDirection.other OrderDirection.other = true
same_direction _ _ = false

-- An entry of a dict with directions as keys is written.
abbrev pub at_direction :
    {V : Type 0} → OrderDirection → V → (OrderDirection → V) → OrderDirection → V
at_direction d v f e = elim (same_direction d e) [ true ↦ v | false ↦ f e ]
