-- ===== src/Engine/Types.antt =====
-- The events, intents and state of the strategy engine: packages/gridcore/src/gridcore/events.py,
-- intents.py, config.py and `GridEngine.__init__` of engine.py.
-- Identifiers (symbols, order ids, strategy ids) are only compared and handed on, so they are
-- naturals; so are time stamps. A price of an intent, `Decimal(str(price))`, is written as the
-- float itself, whose shortest decimal form it is.
use grid_bot_validation.Prelude.{ℕ, ◌==◌, Bool, ◌&&◌, not, Option, List, if◌then◌else◌}
use grid_bot_validation.Prelude.Int.{ℤ}
use grid_bot_validation.Float.{Floats, int}
use grid_bot_validation.Outcome.{Result, ok, err, Error}
use grid_bot_validation.Grid.Level.{GridSideType, Grid}

-- 'long' and 'short'
pub data Direction : Type 0 where
  long short : Direction

-- `GridConfig`; `grid_count` is a natural, so its only bad value is 0.
pub record GridConfig (F : Type 0) : Type 0 where
  pub grid_count : ℕ
  pub grid_step : F
  pub rebalance_threshold : F

module _ {F : Type 0} ⦃fl : Floats F⦄ where
  -- `GridConfig.__post_init__`
  unfoldable pub validate : GridConfig F → Result (GridConfig F)
  validate c =
      if c.grid_count == 0
      then err Error.bad_config
      else if fl.le c.grid_step (int 0)
      then err Error.bad_config
      else if not (fl.lt (int 0) c.rebalance_threshold && fl.lt c.rebalance_threshold (int 1))
      then err Error.bad_config
      else ok c

-- `order['cumExecQty']`: missing or empty, no number, or a number of the smallest unit.
pub data ExecQty : Type 0 where
  absent not_a_number : ExecQty
  amount : ℤ → ExecQty

-- The dict of a live limit order; `price` is `float(limit['price'])`.
pub record Limit (F : Type 0) : Type 0 where
  pub order_id : ℕ
  pub price : F
  pub side : GridSideType
  pub cum_exec_qty : ExecQty

pub record LimitOrders (F : Type 0) : Type 0 where
  pub long_orders : List (Limit F)
  pub short_orders : List (Limit F)

-- What `client_order_id` is the digest of: `strat_id` and the `_IDENTITY_PARAMS`.
pub record Identity (F : Type 0) : Type 0 where
  pub strat_id : ℕ
  pub symbol : ℕ
  pub side : GridSideType
  pub price : F
  pub direction : Direction

pub record PlaceLimitIntent (F : Type 0) : Type 0 where
  pub symbol : ℕ
  pub side : GridSideType
  pub price : F
  pub qty : ℕ
  pub reduce_only : Bool
  pub client_order_id : ℕ
  pub grid_level : ℕ
  pub direction : Direction
  pub order_link_id : Option ℕ
  pub post_only : Bool

pub data CancelReason : Type 0 where
  rebuild side_mismatch outside_grid duplicate : CancelReason

pub record CancelIntent (F : Type 0) : Type 0 where
  pub symbol : ℕ
  pub order_id : ℕ
  pub reason : CancelReason
  pub price : F
  pub side : GridSideType

pub data Intent (F : Type 0) : Type 0 where
  place : PlaceLimitIntent F → Intent F
  cancel : CancelIntent F → Intent F

-- 'New', 'PartiallyFilled', 'Filled', 'Cancelled', 'Rejected' and any other status.
pub data OrderStatus : Type 0 where
  new_order partially_filled filled cancelled rejected other_status : OrderStatus

-- The three kinds of event that the engine handles, and any other, such as a public trade.
pub data Event (F : Type 0) : Type 0 where
  ticker : (last_price : F) (exchange_ts : ℕ) → Event F
  execution : (price : F) (exchange_ts : ℕ) → Event F
  order_update : (status : OrderStatus) (order_link_id order_id : ℕ) → Event F
  other_event : Event F

-- `digest` is the parameter that stands for SHA-256: the state holds it beside the identifiers.
pub record Engine (F : Type 0) : Type 0 where
  pub symbol : ℕ
  pub strat_id : ℕ
  pub digest : Identity F → ℕ
  pub anchor_price : Option F
  pub grid : Grid F
  pub last_close : Option F
  pub last_filled_price : Option F
  pub fill_pending : Bool
  pub pending_orders : List (ℕ × ℕ)
