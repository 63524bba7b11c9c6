-- ===== src/Backtest/Orders/Recorded.antt =====
-- Fills that are given from outside, and the view for the engine: apply_recorded_fill and
-- get_limit_orders of apps/backtest/src/backtest/order_manager.py.
use grid_bot_validation.Prelude.{
  ℕ, ◌+◌, Bool, true, false, Option, none, some, List, [], ◌∷◌, if◌then◌else◌,
}
use grid_bot_validation.Text.{Text}
use grid_bot_validation.Dict.{get, put, values}
use grid_bot_validation.Decimal.{Decimals, zero_dec, lt, le, min_dec}
use grid_bot_validation.Backtest.{OrderSide, OrderDirection, SimulatedOrder}
use grid_bot_validation.Backtest.Orders.{BacktestOrderManager, ExecutionEvent, fill_order}

-- The arguments of `apply_recorded_fill`
pub record RecordedFill (D : Type 0) : Type 0 where
  pub replay_order_id : Text
  pub exec_price : D
  pub exec_qty : D
  pub exec_fee : D
  pub closed_pnl : D
  pub timestamp : ℕ
  pub exec_id : Option Text

-- An order as the engine gets it; a price and a quantity stay decimals, where the source prints them.
pub record OrderDict (D : Type 0) : Type 0 where
  pub price : D
  pub qty : D
  pub side : OrderSide
  pub order_id : Text
  pub order_link_id : Text

module _ {D : Type 0} where
  abbrev pub order_dict : SimulatedOrder D → OrderDict D
  order_dict order = record {
    price = order.price;
    qty = order.qty;
    side = order.side;
    order_id = order.order_id;
    order_link_id = order.client_order_id;
  }

  -- The lists of the long and of the short orders; `none` for the KeyError of another direction.
  unfoldable pub limit_orders :
      List (SimulatedOrder D) → Option (List (OrderDict D) × List (OrderDict D))
  limit_orders [] = some ([], [])
  limit_orders (o ∷ os) = elim (limit_orders os) [
    | none ↦ none
    | some (longs, shorts) ↦ elim o.direction [
      | OrderDirection.long ↦ some (order_dict o ∷ longs, shorts)
      | OrderDirection.short ↦ some (longs, order_dict o ∷ shorts)
      | OrderDirection.other ↦ none
    ]
  ]

  abbrev pub get_limit_orders :
      BacktestOrderManager D → Option (List (OrderDict D) × List (OrderDict D))
  get_limit_orders m = limit_orders (values m.active_orders)

module _ {D : Type 0} ⦃dec : Decimals D⦄ where
  -- The slice of a fee or a profit that goes with the applied quantity
  abbrev pub pro_rated : (apply_qty exec_qty amount : D) → D
  pro_rated apply_qty exec_qty amount =
      if dec.eq apply_qty exec_qty then amount else dec.mul amount (dec.div apply_qty exec_qty)

  abbrev pub recorded_event :
      RecordedFill D → SimulatedOrder D → (apply_qty leaves_qty : D) → ExecutionEvent D
  recorded_event r order apply_qty leaves_qty = record {
    symbol = order.symbol;
    exchange_ts = r.timestamp;
    local_ts = r.timestamp;
    exec_id = r.exec_id;
    order_id = order.order_id;
    order_link_id = order.client_order_id;
    side = order.side;
    price = r.exec_price;
    qty = apply_qty;
    fee = pro_rated apply_qty r.exec_qty r.exec_fee;
    closed_pnl = pro_rated apply_qty r.exec_qty r.closed_pnl;
    closed_size = zero_dec;
    leaves_qty = leaves_qty;
  }

  abbrev pub count_excess :
      RecordedFill D → SimulatedOrder D → BacktestOrderManager D → BacktestOrderManager D
  count_excess r order m =
      if lt order.qty r.exec_qty
      then record m { qty_excess_divergence_count = m.qty_excess_divergence_count + 1 }
      else m

  -- What is left of an order after a partial fill
  abbrev pub reduced : SimulatedOrder D → D → SimulatedOrder D
  reduced order apply_qty = record order { qty = dec.sub order.qty apply_qty }

  -- The part of `apply_recorded_fill` for an order that was found
  unfoldable pub apply_to_order :
      RecordedFill D
      → SimulatedOrder D
      → BacktestOrderManager D
      → (Option (ExecutionEvent D) × Bool) × BacktestOrderManager D
  apply_to_order r order m =
      let apply_qty = min_dec r.exec_qty order.qty in
      let m' = count_excess r order m in
      if le apply_qty zero_dec
      then ((none, false), m)
      else if dec.eq apply_qty order.qty
      then (
        (some (recorded_event r order apply_qty zero_dec), true),
        fill_order r.replay_order_id order r.timestamp m',
      )
      else (
        (some (recorded_event r order apply_qty (dec.sub order.qty apply_qty)), false),
        record m' {
          active_orders = put m'.active_orders r.replay_order_id (reduced order apply_qty);
        },
      )

  unfoldable pub apply_recorded_fill :
      RecordedFill D
      → BacktestOrderManager D
      → (Option (ExecutionEvent D) × Bool) × BacktestOrderManager D
  apply_recorded_fill r m = elim (get m.active_orders r.replay_order_id) [
    | none ↦ ((none, false), m)
    | some order ↦ apply_to_order r order m
  ]
