-- ===== src/Backtest.antt =====
-- The simulated exchange of a backtest, apps/backtest/src/backtest: its shared data.
-- Times are whole microseconds, naive UTC. Strings are texts; a side is 'Buy', 'Sell' or something
-- else, and a direction 'long', 'short' or something else.
pub mod Fills
pub mod Follower
pub mod Orders
pub mod Positions
mod Tests
use grid_bot_validation.Prelude.{ℕ, Bool, true, false, Option}
use grid_bot_validation.Text.{Text}

pub data OrderSide : Type 0 where
  buy sell other : OrderSide

pub data OrderDirection : Type 0 where
  long short other : OrderDirection

abbrev pub same_side : OrderSide → OrderSide → Bool
same_side OrderSide.buy OrderSide.buy = true
same_side OrderSide.sell OrderSide.sell = true
same_side OrderSide.other OrderSide.other = true
same_side _ _ = false

-- The fields of `TickerEvent` that the backtest reads.
pub record TickerEvent (D : Type 0) : Type 0 where
  pub symbol : Option Text
  pub exchange_ts : ℕ
  pub local_ts : ℕ
  pub last_price : D
  pub bid1_price : D
  pub ask1_price : D

-- `TickerEvent | Decimal`
pub data Market (D : Type 0) : Type 0 where
  ticker : TickerEvent D → Market D
  bare : D → Market D

pub data OrderStatus : Type 0 where
  pending filled cancelled : OrderStatus

pub record SimulatedOrder (D : Type 0) : Type 0 where
  pub order_id : Text
  pub client_order_id : Text
  pub symbol : Text
  pub side : OrderSide
  pub price : D
  pub qty : D
  pub direction : OrderDirection
  pub grid_level : ℕ
  pub status : OrderStatus
  pub created_ts : ℕ
  pub filled_ts : Option ℕ
  pub reduce_only : Bool
