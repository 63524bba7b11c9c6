-- ===== src/Backtest/Orders/Spec.antt =====
-- What the order book promises, without ids, index and histories: a list of open orders in the order
-- of their arrival. It is for class BacktestOrderManager of apps/backtest/src/backtest/order_manager.py.
use grid_bot_validation.Prelude.{
  ℕ, Bool, true, false, not, ◌&&◌, ◌||◌, Option, none, some, List, [], ◌∷◌, ◌++◌, map,
  if◌then◌else◌,
}
use grid_bot_validation.Text.{Text, same_text}
use grid_bot_validation.Dict.{Dict}
use grid_bot_validation.Outcome.{Action, Result, ok, err, ◌>>=◌, pure}
use grid_bot_validation.Decimal.{Decimals}
use grid_bot_validation.Backtest.{OrderSide, Market, SimulatedOrder}
use grid_bot_validation.Backtest.Fills.{
  TradeThroughFillSimulator, advance_market, should_fill, to_snapshot,
}
use grid_bot_validation.Backtest.Orders.{
  BacktestOrderManager, Placement, ExecutionEvent, in_scope, place_order, cancel_by_client_order_id,
  check_fills,
}

-- The three ways in which the runner changes the book.
pub data Command (D : Type 0) : Type 0 where
  place : Placement D → Command D
  cancel : (client_order_id : Text) → Command D
  fills : Market D → (timestamp : ℕ) → (symbol : Option Text) → Command D

-- What a fill tells.
pub record Fill (D : Type 0) : Type 0 where
  pub client_order_id : Text
  pub symbol : Text
  pub side : OrderSide
  pub price : D
  pub qty : D
  pub fee : D
  pub timestamp : ℕ

pub data Answer (D : Type 0) : Type 0 where
  accepted : Bool → Answer D
  executed : List (Fill D) → Answer D

pub record OrderBook (D : Type 0) : Type 0 where
  pub simulator : TradeThroughFillSimulator D
  pub orders : List (Placement D)

abbrev pub is_some : {A : Type 0} → Option A → Bool
is_some none = false
is_some (some a) = true

abbrev pub fills_at : Result Bool → Bool
fills_at (ok b) = b
fills_at (err e) = false

module _ {D : Type 0} where
  unfoldable pub has_open : Text → List (Placement D) → Bool
  has_open id [] = false
  has_open id (p ∷ ps) = let rest = has_open id ps in same_text p.client_order_id id || rest

  -- The open orders but the first with a client order id.
  unfoldable pub without_open : Text → List (Placement D) → List (Placement D)
  without_open id [] = []
  without_open id (p ∷ ps) =
      let rest = without_open id ps in if same_text p.client_order_id id then ps else p ∷ rest

  unfoldable pub which : (Placement D → Bool) → List (Placement D) → List (Placement D)
  which test [] = []
  which test (p ∷ ps) = let rest = which test ps in if test p then p ∷ rest else rest

  -- What an active order was placed with.
  abbrev pub placement_of : SimulatedOrder D → Placement D
  placement_of o = record {
    client_order_id = o.client_order_id;
    symbol = o.symbol;
    side = o.side;
    price = o.price;
    qty = o.qty;
    direction = o.direction;
    grid_level = o.grid_level;
    timestamp = o.created_ts;
    reduce_only = o.reduce_only;
  }

  unfoldable pub open_of : Dict (SimulatedOrder D) → List (Placement D)
  open_of [] = []
  open_of (e ∷ es) = placement_of e.1 ∷ open_of es

  abbrev pub book_of : BacktestOrderManager D → OrderBook D
  book_of m = record { simulator = m.fill_simulator; orders = open_of m.active_orders }

  abbrev pub fill_of : ExecutionEvent D → Fill D
  fill_of e = record {
    client_order_id = e.order_link_id;
    symbol = e.symbol;
    side = e.side;
    price = e.price;
    qty = e.qty;
    fee = e.fee;
    timestamp = e.exchange_ts;
  }

  -- A ticker event only looks at its own symbol.
  abbrev pub scope : Market D → Option Text → Option Text
  scope (Market.ticker t) symbol = t.symbol
  scope (Market.bare price) symbol = symbol

module _ {D : Type 0} ⦃dec : Decimals D⦄ where
  abbrev pub seen : Market D → TradeThroughFillSimulator D → TradeThroughFillSimulator D
  seen (Market.ticker t) sim = advance_market sim t
  seen (Market.bare price) sim = sim

  -- An open order fills.
  abbrev pub is_hit : TradeThroughFillSimulator D → Market D → Option Text → Placement D → Bool
  is_hit sim market symbol p =
      in_scope symbol p.symbol && fills_at (should_fill sim p.side p.price (to_snapshot market))

  abbrev pub full_fill : D → ℕ → Placement D → Fill D
  full_fill commission_rate timestamp p = record {
    client_order_id = p.client_order_id;
    symbol = p.symbol;
    side = p.side;
    price = p.price;
    qty = p.qty;
    fee = dec.mul (dec.mul p.qty p.price) commission_rate;
    timestamp = timestamp;
  }

  unfoldable pub spec_step : D → Command D → OrderBook D → Answer D × OrderBook D
  spec_step commission_rate (Command.place p) b =
      if has_open p.client_order_id b.orders
      then (Answer.accepted false, b)
      else (Answer.accepted true, record b { orders = b.orders ++ p ∷ [] })
  spec_step commission_rate (Command.cancel id) b =
      (Answer.accepted (has_open id b.orders), record b { orders = without_open id b.orders })
  spec_step commission_rate (Command.fills market timestamp symbol) b =
      let sim = seen market b.simulator in
      let hit = is_hit sim market (scope market symbol) in
      (
        Answer.executed (map (full_fill commission_rate timestamp) (which hit b.orders)),
        record { simulator = sim; orders = which (λ p. not (hit p)) b.orders },
      )

  unfoldable pub step : Command D → Action (BacktestOrderManager D) (Answer D)
  step (Command.place p) m =
      let (order, m') = place_order p m in (ok (Answer.accepted (is_some order)), m')
  step (Command.cancel id) m =
      let (done, m') = cancel_by_client_order_id id m in (ok (Answer.accepted done), m')
  step (Command.fills market timestamp symbol) m =
      let check = check_fills (some market) (some timestamp) symbol none in
      let told : List (ExecutionEvent D) → Action (BacktestOrderManager D) (Answer D) =
        λ events. pure (Answer.executed (map fill_of events)) in
      (check >>= told) m

  unfoldable pub run : List (Command D) → Action (BacktestOrderManager D) (List (Answer D))
  run [] = pure []
  run (c ∷ cs) = step c >>= λ a. run cs >>= λ more. pure (a ∷ more)

  unfoldable pub spec_run : D → List (Command D) → OrderBook D → List (Answer D) × OrderBook D
  spec_run commission_rate [] b = ([], b)
  spec_run commission_rate (c ∷ cs) b =
      let (a, b') = spec_step commission_rate c b in
      let (more, b'') = spec_run commission_rate cs b' in (a ∷ more, b'')
