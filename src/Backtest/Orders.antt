-- ===== src/Backtest/Orders.antt =====
-- The simulated order book: class BacktestOrderManager of
-- apps/backtest/src/backtest/order_manager.py. An execution id made by uuid4 is `none`.
pub mod Book
pub mod Change
pub mod Recorded
pub mod Keeps
pub mod Spec
pub mod Loop
pub mod Refines
use grid_bot_validation.Prelude.{
  ℕ, ◌+◌, Bool, true, false, not, Option, none, some, List, [], ◌∷◌, ◌++◌, length, if◌then◌else◌,
}
use grid_bot_validation.Text.{Text, same_text, padded}
use grid_bot_validation.Dict.{Dict, get, put, pop, values, contains, include, discard}
use grid_bot_validation.Outcome.{Error, Action, Result, ok, err, ◌>>=◌, pure, raise}
use grid_bot_validation.Decimal.{Decimals, zero_dec, lt, le, min_dec}
use grid_bot_validation.Backtest.{OrderSide, OrderDirection, OrderStatus, Market, SimulatedOrder}
use grid_bot_validation.Backtest.Fills.{
  TradeThroughFillSimulator, FillResult, check_fill, advance_market,
}
use grid_bot_validation.Backtest.Follower.{first_with}

pub record ExecutionEvent (D : Type 0) : Type 0 where
  pub symbol : Text
  pub exchange_ts : ℕ
  pub local_ts : ℕ
  pub exec_id : Option Text
  pub order_id : Text
  pub order_link_id : Text
  pub side : OrderSide
  pub price : D
  pub qty : D
  pub fee : D
  pub closed_pnl : D
  pub closed_size : D
  pub leaves_qty : D

pub record BacktestOrderManager (D : Type 0) : Type 0 where
  pub fill_simulator : TradeThroughFillSimulator D
  pub commission_rate : D
  pub active_orders : Dict (SimulatedOrder D)
  pub filled_orders : List (SimulatedOrder D)
  pub cancelled_orders : List (SimulatedOrder D)
  pub client_order_ids : List Text
  pub order_counter : ℕ
  pub qty_excess_divergence_count : ℕ

-- The arguments of `place_order`
pub record Placement (D : Type 0) : Type 0 where
  pub client_order_id : Text
  pub symbol : Text
  pub side : OrderSide
  pub price : D
  pub qty : D
  pub direction : OrderDirection
  pub grid_level : ℕ
  pub timestamp : ℕ
  pub reduce_only : Bool

-- What `seed_active_orders` reads of an `ActiveOrderSeed`
pub record ActiveOrderSeed (D : Type 0) : Type 0 where
  pub client_id : Text
  pub exchange_order_id : Text
  pub symbol : Text
  pub side : OrderSide
  pub direction : OrderDirection
  pub price : D
  pub remaining_qty : D
  pub reduce_only : Bool
  pub exchange_ts : ℕ

-- `f"sim_{n:08d}"`
abbrev pub sim_id : ℕ → Text
sim_id n = 115 ∷ 105 ∷ 109 ∷ 95 ∷ padded 8 n

-- The symbol filter lets an order through.
abbrev pub in_scope : Option Text → Text → Bool
in_scope none symbol = true
in_scope (some wanted) symbol = same_text symbol wanted

-- `timestamp or market.exchange_ts`
abbrev pub given_or : ℕ → Option ℕ → ℕ
given_or default none = default
given_or default (some ts) = ts

module _ {D : Type 0} where
  -- `__init__`
  abbrev pub manager : TradeThroughFillSimulator D → D → BacktestOrderManager D
  manager fill_simulator commission_rate = record {
    fill_simulator = fill_simulator;
    commission_rate = commission_rate;
    active_orders = [];
    filled_orders = [];
    cancelled_orders = [];
    client_order_ids = [];
    order_counter = 0;
    qty_excess_divergence_count = 0;
  }

  abbrev pub placed_order : Text → Placement D → SimulatedOrder D
  placed_order order_id p = record {
    order_id = order_id;
    client_order_id = p.client_order_id;
    symbol = p.symbol;
    side = p.side;
    price = p.price;
    qty = p.qty;
    direction = p.direction;
    grid_level = p.grid_level;
    status = OrderStatus.pending;
    created_ts = p.timestamp;
    filled_ts = none;
    reduce_only = p.reduce_only;
  }

  -- An order becomes active.
  abbrev pub activate : Text → SimulatedOrder D → BacktestOrderManager D → BacktestOrderManager D
  activate order_id order m = record m {
    active_orders = put m.active_orders order_id order;
    client_order_ids = include m.client_order_ids order.client_order_id;
  }

  unfoldable pub place_order :
      Placement D → BacktestOrderManager D → Option (SimulatedOrder D) × BacktestOrderManager D
  place_order p m =
      let order_id = sim_id (m.order_counter + 1) in
      let order = placed_order order_id p in
      if contains m.client_order_ids p.client_order_id
      then (none, m)
      else (some order, activate order_id order (record m { order_counter = m.order_counter + 1 }))

  abbrev pub seeded_order : ActiveOrderSeed D → SimulatedOrder D
  seeded_order seed = record {
    order_id = seed.exchange_order_id;
    client_order_id = seed.client_id;
    symbol = seed.symbol;
    side = seed.side;
    price = seed.price;
    qty = seed.remaining_qty;
    direction = seed.direction;
    grid_level = 0;
    status = OrderStatus.pending;
    created_ts = seed.exchange_ts;
    filled_ts = none;
    reduce_only = seed.reduce_only;
  }

  unfoldable pub seed_active_orders :
      List (ActiveOrderSeed D) → BacktestOrderManager D → BacktestOrderManager D
  seed_active_orders [] m = m
  seed_active_orders (seed ∷ seeds) m = elim (get m.active_orders seed.exchange_order_id) [
    | some order ↦ seed_active_orders seeds m
    | none ↦ seed_active_orders seeds (activate seed.exchange_order_id (seeded_order seed) m)
  ]

  -- The order leaves the active ones, and its client order id is free again.
  abbrev pub deactivate : Text → SimulatedOrder D → BacktestOrderManager D → BacktestOrderManager D
  deactivate order_id order m = record m {
    active_orders = pop m.active_orders order_id;
    client_order_ids = discard m.client_order_ids order.client_order_id;
  }

  unfoldable pub cancel_order : Text → BacktestOrderManager D → Bool × BacktestOrderManager D
  cancel_order order_id m = elim (get m.active_orders order_id) [
    | none ↦ (false, m)
    | some order ↦
        let m' = deactivate order_id order m in
        (
          true,
          record m' {
            cancelled_orders =
                m'.cancelled_orders ++ record order { status = OrderStatus.cancelled } ∷ [];
          },
        )
  ]

  -- The loop of `cancel_by_client_order_id`: the id of the first active order with the client id
  unfoldable pub id_of_client : Text → Dict (SimulatedOrder D) → Option Text
  id_of_client client_order_id [] = none
  id_of_client client_order_id (e ∷ es) =
      let rest = id_of_client client_order_id es in
      if same_text e.1.client_order_id client_order_id then some e.0 else rest

  unfoldable pub cancel_by_client_order_id :
      Text → BacktestOrderManager D → Bool × BacktestOrderManager D
  cancel_by_client_order_id client_order_id m =
      elim (id_of_client client_order_id m.active_orders) [
        | none ↦ (false, m)
        | some order_id ↦ cancel_order order_id m
      ]

  -- The order leaves the active ones as filled.
  unfoldable pub fill_order :
      Text → SimulatedOrder D → ℕ → BacktestOrderManager D → BacktestOrderManager D
  fill_order order_id order fill_timestamp m =
      let m' = deactivate order_id order m in
      record m' {
        filled_orders =
            m'.filled_orders
            ++ record order { status = OrderStatus.filled; filled_ts = some fill_timestamp } ∷ [];
      }

module _ {D : Type 0} ⦃dec : Decimals D⦄ where
  abbrev pub fill_event : BacktestOrderManager D → SimulatedOrder D → D → ℕ → ExecutionEvent D
  fill_event m order fill_price fill_timestamp = record {
    symbol = order.symbol;
    exchange_ts = fill_timestamp;
    local_ts = fill_timestamp;
    exec_id = none;
    order_id = order.order_id;
    order_link_id = order.client_order_id;
    side = order.side;
    price = fill_price;
    qty = order.qty;
    fee = dec.mul (dec.mul order.qty fill_price) m.commission_rate;
    closed_pnl = zero_dec;
    closed_size = zero_dec;
    leaves_qty = zero_dec;
  }

  -- The rest of a round of the loop, for the answer of `check_fill`
  unfoldable pub after_check :
      Text
      → SimulatedOrder D
      → ℕ
      → Result (FillResult D)
      → Action (BacktestOrderManager D) (List (ExecutionEvent D))
  after_check order_id order fill_timestamp (err e) m = (err e, m)
  after_check order_id order fill_timestamp (ok r) m =
      if r.should_fill
      then (
        ok (fill_event m order r.fill_price fill_timestamp ∷ []),
        fill_order order_id order fill_timestamp m,
      )
      else (ok [], m)

  unfoldable pub check_order :
      Market D
      → ℕ
      → Option Text
      → Text × SimulatedOrder D
      → Action (BacktestOrderManager D) (List (ExecutionEvent D))
  check_order market fill_timestamp symbol_filter (order_id, order) m =
      if in_scope symbol_filter order.symbol
      then after_check order_id order fill_timestamp (check_fill m.fill_simulator order market) m
      else (ok [], m)

  -- The loop of `check_fills` over a copy of the active orders
  unfoldable pub check_orders :
      Market D
      → ℕ
      → Option Text
      → Dict (SimulatedOrder D)
      → Action (BacktestOrderManager D) (List (ExecutionEvent D))
  check_orders market fill_timestamp symbol_filter [] = pure []
  check_orders market fill_timestamp symbol_filter (e ∷ es) =
      check_order market fill_timestamp symbol_filter e >>= λ fills.
      check_orders market fill_timestamp symbol_filter es >>= λ more. pure (fills ++ more)

  -- `check_fills` of a market that is given
  unfoldable pub check_market :
      Market D → Option ℕ → Option Text → Action (BacktestOrderManager D) (List (ExecutionEvent D))
  check_market (Market.ticker t) timestamp symbol m =
      let m' = record m { fill_simulator = advance_market m.fill_simulator t } in
      let fill_timestamp = given_or t.exchange_ts timestamp in
      check_orders (Market.ticker t) fill_timestamp t.symbol m'.active_orders m'
  check_market (Market.bare price) none symbol m = (err Error.missing_timestamp, m)
  check_market (Market.bare price) (some ts) symbol m =
      check_orders (Market.bare price) ts symbol m.active_orders m

  unfoldable pub check_fills :
      Option (Market D)
      → Option ℕ
      → Option Text
      → (current_price : Option D) → Action (BacktestOrderManager D) (List (ExecutionEvent D))
  check_fills (some market) timestamp symbol current_price = check_market market timestamp symbol
  check_fills none timestamp symbol none = raise Error.missing_market
  check_fills none timestamp symbol (some price) = check_market (Market.bare price) timestamp symbol

  -- `get_order_by_client_id`
  unfoldable pub get_order_by_client_id : Text → BacktestOrderManager D → Option (SimulatedOrder D)
  get_order_by_client_id client_order_id m =
      elim (first_with client_order_id (values m.active_orders)) [
        | some order ↦ some order
        | none ↦ first_with client_order_id m.filled_orders
      ]
