-- ===== src/Backtest/Fills.antt =====
-- When a simulated order fills: class TradeThroughFillSimulator of
-- apps/backtest/src/backtest/fill_simulator.py.
pub mod Modes
use grid_bot_validation.Prelude.{
  ℕ, Bool, true, false, not, ◌&&◌, ◌||◌, ◌==◌, Option, [], none, some, if◌then◌else◌,
}
use grid_bot_validation.Text.{Text, same_text}
use grid_bot_validation.Dict.{Dict, get, put}
use grid_bot_validation.Outcome.{Error, Result, ok, err}
use grid_bot_validation.Decimal.{Decimals, zero_dec, lt, le}
use grid_bot_validation.Backtest.{OrderSide, TickerEvent, Market, SimulatedOrder}

pub data FillMode : Type 0 where
  strict_cross trade_through_at_limit book_touch last_cross event_follower : FillMode

pub record FillResult (D : Type 0) : Type 0 where
  pub should_fill : Bool
  pub fill_price : D

pub record MarketSnapshot (D : Type 0) : Type 0 where
  pub last_price : D
  pub bid1_price : Option D
  pub ask1_price : Option D
  pub symbol : Option Text

-- A tick's token: its symbol, `exchange_ts` and `local_ts`.
abbrev pub Token : Type 0
Token = Text × ℕ × ℕ

pub record TradeThroughFillSimulator (D : Type 0) : Type 0 where
  pub mode : FillMode
  pub prev_last_price : Dict D
  pub tick_prev_last : Dict (Option D)
  pub tick_token : Dict Token

abbrev pub is_token : Option Token → Token → Bool
is_token none t = false
is_token (some (s, e, l)) (s', e', l') = same_text s s' && e == e' && l == l'

-- `dict.get` of a dict whose values may be None
abbrev pub get_flat : {A : Type 0} → Option (Option A) → Option A
get_flat none = none
get_flat (some v) = v

module _ {D : Type 0} where
  -- `__init__`
  abbrev pub simulator : FillMode → TradeThroughFillSimulator D
  simulator mode = record {
    mode = mode;
    prev_last_price = [];
    tick_prev_last = [];
    tick_token = [];
  }

module _ {D : Type 0} ⦃dec : Decimals D⦄ where
  -- `advance_market`, for the ticker's symbol
  unfoldable pub advance_for :
      TradeThroughFillSimulator D → TickerEvent D → Option Text → TradeThroughFillSimulator D
  advance_for sim market none = sim
  advance_for sim market (some symbol) =
      let token : Token = (symbol, market.exchange_ts, market.local_ts) in
      if le market.last_price zero_dec
      then sim
      else if is_token (get sim.tick_token symbol) token
      then sim
      else record sim {
        tick_prev_last = put sim.tick_prev_last symbol (get sim.prev_last_price symbol);
        prev_last_price = put sim.prev_last_price symbol market.last_price;
        tick_token = put sim.tick_token symbol token;
      }

  abbrev pub advance_market :
      TradeThroughFillSimulator D → TickerEvent D → TradeThroughFillSimulator D
  advance_market sim market = advance_for sim market market.symbol

  abbrev pub normalize_l1_price : D → Option D
  normalize_l1_price price = if lt zero_dec price then some price else none

  unfoldable pub to_snapshot : Market D → MarketSnapshot D
  to_snapshot (Market.ticker market) = record {
    last_price = market.last_price;
    bid1_price = normalize_l1_price market.bid1_price;
    ask1_price = normalize_l1_price market.ask1_price;
    symbol = market.symbol;
  }
  to_snapshot (Market.bare price) = record {
    last_price = price;
    bid1_price = none;
    ask1_price = none;
    symbol = none;
  }

  -- The `else` of the next two functions takes in every side but 'Buy'.
  unfoldable pub should_fill_strict_cross : OrderSide → (limit_price current_price : D) → Bool
  should_fill_strict_cross OrderSide.buy limit_price current_price =
      if le current_price zero_dec then false else lt current_price limit_price
  should_fill_strict_cross _ limit_price current_price =
      if le current_price zero_dec then false else lt limit_price current_price

  unfoldable pub should_fill_at_limit : OrderSide → (limit_price current_price : D) → Bool
  should_fill_at_limit OrderSide.buy limit_price current_price =
      if le current_price zero_dec then false else le current_price limit_price
  should_fill_at_limit _ limit_price current_price =
      if le current_price zero_dec then false else le limit_price current_price

  unfoldable pub should_fill_book_touch : OrderSide → D → MarketSnapshot D → Result Bool
  should_fill_book_touch OrderSide.buy limit_price snapshot = elim snapshot.ask1_price [
    | none ↦ ok (should_fill_at_limit OrderSide.buy limit_price snapshot.last_price)
    | some ask ↦ ok (le ask limit_price)
  ]
  should_fill_book_touch OrderSide.sell limit_price snapshot = elim snapshot.bid1_price [
    | none ↦ ok (should_fill_at_limit OrderSide.sell limit_price snapshot.last_price)
    | some bid ↦ ok (le limit_price bid)
  ]
  should_fill_book_touch OrderSide.other limit_price snapshot = err Error.invalid_order_side

  -- The part of `_should_fill_last_cross` after the side has been validated: the test of a crossing
  -- from the price before.
  abbrev pub crossed : OrderSide → (limit_price curr_last prev_last : D) → Bool
  crossed OrderSide.buy limit_price curr_last prev_last =
      lt limit_price prev_last && le curr_last limit_price
  crossed _ limit_price curr_last prev_last = lt prev_last limit_price && le limit_price curr_last

  -- The rest of `_should_fill_last_cross`, for the snapshot's symbol
  unfoldable pub last_crossed :
      TradeThroughFillSimulator D → OrderSide → (limit_price curr_last : D) → Option Text → Bool
  last_crossed sim side limit_price curr_last none = false
  last_crossed sim side limit_price curr_last (some symbol) =
      if le curr_last zero_dec then false else elim (get_flat (get sim.tick_prev_last symbol)) [
        | none ↦ false
        | some prev_last ↦ crossed side limit_price curr_last prev_last
      ]

  unfoldable pub should_fill_last_cross :
      TradeThroughFillSimulator D → OrderSide → D → MarketSnapshot D → Result Bool
  should_fill_last_cross sim OrderSide.other limit_price snapshot = err Error.invalid_order_side
  should_fill_last_cross sim side limit_price snapshot =
      ok (last_crossed sim side limit_price snapshot.last_price snapshot.symbol)

  unfoldable pub should_fill_mode :
      FillMode → TradeThroughFillSimulator D → OrderSide → D → MarketSnapshot D → Result Bool
  should_fill_mode FillMode.strict_cross sim side limit_price snapshot =
      ok (should_fill_strict_cross side limit_price snapshot.last_price)
  should_fill_mode FillMode.trade_through_at_limit sim side limit_price snapshot =
      ok (should_fill_at_limit side limit_price snapshot.last_price)
  should_fill_mode FillMode.book_touch sim side limit_price snapshot =
      should_fill_book_touch side limit_price snapshot
  should_fill_mode FillMode.last_cross sim side limit_price snapshot =
      should_fill_last_cross sim side limit_price snapshot
  should_fill_mode FillMode.event_follower sim side limit_price snapshot =
      err Error.event_follower_check

  -- `_should_fill`
  abbrev pub should_fill :
      TradeThroughFillSimulator D → OrderSide → D → MarketSnapshot D → Result Bool
  should_fill sim = should_fill_mode sim.mode sim

  unfoldable pub fill_result : SimulatedOrder D → Result Bool → Result (FillResult D)
  fill_result order (err e) = err e
  fill_result order (ok fills) =
      ok (record { should_fill = fills; fill_price = if fills then order.price else zero_dec })

  abbrev pub check_fill :
      TradeThroughFillSimulator D → SimulatedOrder D → Market D → Result (FillResult D)
  check_fill sim order market =
      fill_result order (should_fill sim order.side order.price (to_snapshot market))

  -- `get_fill_price`
  abbrev pub get_fill_price : SimulatedOrder D → D
  get_fill_price order = order.price
