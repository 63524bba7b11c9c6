-- ===== src/Backtest/Tests.antt =====
-- Concrete runs of the simulated exchange, and the theorems at inputs that meet their hypotheses.
use grid_bot_validation.Prelude.{
  ℕ, ◌≡◌, refl, inl, true, false, none, some, List, [], ◌∷◌, drop, arith, if◌then◌else◌,
}
use grid_bot_validation.Text.{Text, same_text, digits}
use grid_bot_validation.Dict.{get, contains, put, pop, include, discard}
use grid_bot_validation.Outcome.{ok}
use grid_bot_validation.Decimal.{zero_dec}
use grid_bot_validation.Decimal.Fixed.{FixedDec, fixed_decimals, dec_tenths}
use grid_bot_validation.Backtest.{
  OrderSide, OrderDirection, OrderStatus, TickerEvent, Market, SimulatedOrder,
}
use grid_bot_validation.Backtest.Fills.{
  FillMode, TradeThroughFillSimulator, simulator, advance_market, advance_for, check_fill,
  should_fill_mode, should_fill_strict_cross, fill_result, to_snapshot,
}
use grid_bot_validation.Backtest.Fills.Modes.{transition, check_fill-transition}
use grid_bot_validation.Backtest.Follower.{RecordedExecution, follower, has_pending_for_order}
use grid_bot_validation.Backtest.Follower.Drains.{
  drains, InOrder, AllFrom, Ascending, up_to, last_of, drains-up_to,
}
use grid_bot_validation.Backtest.Follower.Pending.{any_of, has_pending_for_order-any}
use grid_bot_validation.Backtest.Orders.{
  BacktestOrderManager, Placement, manager, place_order, cancel_by_client_order_id, cancel_order,
  id_of_client, check_fills, check_market, check_orders, check_order, after_check, fill_order,
}
use grid_bot_validation.Backtest.Orders.Book.{IsBook, IsKeyed, has_client}
use grid_bot_validation.Backtest.Orders.Spec.{step, Fill, Command, Answer, book_of, run, spec_run}
use grid_bot_validation.Backtest.Orders.Refines.{AllValid, Valid, run_refines}

-- "X"
abbrev symbol : Text
symbol = 88 ∷ []

abbrev tick : (ts price : ℕ) → TickerEvent FixedDec
tick ts price = record {
  symbol = some symbol;
  exchange_ts = ts;
  local_ts = ts;
  last_price = dec_tenths price;
  bid1_price = dec_tenths 0;
  ask1_price = dec_tenths 0;
}

abbrev buy_order : SimulatedOrder FixedDec
buy_order = record {
  order_id = 1 ∷ [];
  client_order_id = 2 ∷ [];
  symbol = symbol;
  side = OrderSide.buy;
  price = dec_tenths 995;
  qty = dec_tenths 10;
  direction = OrderDirection.long;
  grid_level = 3;
  status = OrderStatus.pending;
  created_ts = 1;
  filled_ts = none;
  reduce_only = false;
}

abbrev crossing : TradeThroughFillSimulator FixedDec
crossing = simulator FillMode.last_cross

-- The price falls from 100 through the limit 99.5 to 99.
check_fill-transition_example :
    let sim' = advance_market (advance_market crossing (tick 1 1000)) (tick 2 990) in
    let fills = transition OrderSide.buy (dec_tenths 995) (dec_tenths 1000) (dec_tenths 990) in
    (check_fill sim' buy_order (Market.ticker (tick 2 990))
      ≡ ok
          (record { should_fill = fills; fill_price = if fills then dec_tenths 995 else zero_dec }))
    × (advance_market sim' (tick 2 990) ≡ sim')
unfolding get same_text
check_fill-transition_example =
    check_fill-transition crossing symbol (tick 1 1000) (tick 2 990) buy_order refl
      (record { of_symbol = refl; positive = refl }) (record { of_symbol = refl; positive = refl })
      refl refl (inl refl)

abbrev execution : (id ts : ℕ) → RecordedExecution FixedDec
execution id ts = record {
  exec_id = ts ∷ [];
  order_link_id = none;
  order_id = id ∷ [];
  side = OrderSide.buy;
  exec_price = dec_tenths 995;
  exec_qty = dec_tenths 10;
  exec_fee = dec_tenths 0;
  closed_pnl = dec_tenths 0;
  exchange_ts = ts;
}

abbrev stream : List (RecordedExecution FixedDec)
stream = execution 1 10 ∷ execution 2 12 ∷ execution 1 12 ∷ execution 2 20 ∷ []

stream-InOrder : InOrder stream
unfolding InOrder AllFrom
stream-InOrder = (
  (omega arith, (omega arith, (omega arith, tt))),
  ((omega arith, (omega arith, tt)), ((omega arith, tt), (tt, tt))),
)

stream-AllFrom : AllFrom 10 stream
unfolding AllFrom
stream-AllFrom = (omega arith, (omega arith, (omega arith, (omega arith, tt))))

ticks-Ascending : Ascending 9 (10 ∷ 12 ∷ 15 ∷ [])
unfolding Ascending
ticks-Ascending = (omega arith, (omega arith, (omega arith, tt)))

drains-up_to_example :
    let f = follower stream symbol 10 in
    (drains f.initial_prev_ts (10 ∷ 12 ∷ 15 ∷ []) f).0
    ≡ ok (up_to (last_of 9 (10 ∷ 12 ∷ 15 ∷ [])) stream)
drains-up_to_example =
    drains-up_to stream symbol 10 (10 ∷ 12 ∷ 15 ∷ []) (omega arith) stream-InOrder stream-AllFrom
      ticks-Ascending

has_pending_for_order-any_example :
    let f = record (follower stream symbol 10) { cursor = 3 } in
    has_pending_for_order f (2 ∷ []) ≡ any_of (2 ∷ []) (drop 3 stream)
has_pending_for_order-any_example = has_pending_for_order-any stream symbol 10 3 (2 ∷ [])

abbrev placement : (id price : ℕ) → Placement FixedDec
placement id price = record {
  client_order_id = id ∷ [];
  symbol = symbol;
  side = OrderSide.buy;
  price = dec_tenths price;
  qty = dec_tenths 10;
  direction = OrderDirection.long;
  grid_level = 1;
  timestamp = 5;
  reduce_only = false;
}

abbrev commands : List (Command FixedDec)
commands =
    Command.place (placement 1 990)
    ∷ Command.place (placement 1 980)
    ∷ Command.place (placement 2 970)
    ∷ Command.fills (Market.ticker (tick 1 985)) 7 none
    ∷ Command.cancel (2 ∷ [])
    ∷ Command.cancel (2 ∷ [])
    ∷ []

abbrev fresh : BacktestOrderManager FixedDec
fresh = manager (simulator FillMode.strict_cross) (dec_tenths 1)

fresh-IsBook : IsBook fresh
unfolding IsKeyed contains has_client get
fresh-IsBook = record { keyed = tt; known = λ id. refl; unused = λ n h. refl }

commands-AllValid : AllValid commands
unfolding AllValid Valid
commands-AllValid = (inl refl, (inl refl, (inl refl, (tt, (tt, (tt, tt))))))

abbrev fill : (id price : ℕ) → Fill FixedDec
fill id price = record {
  client_order_id = id ∷ [];
  symbol = symbol;
  side = OrderSide.buy;
  price = dec_tenths price;
  qty = dec_tenths 10;
  fee = dec_tenths 99;
  timestamp = 7;
}

-- The second order has a client id that is taken, the first one fills, and the third is cancelled once.
commands-run :
    (run commands fresh).0
    ≡ ok (
        Answer.accepted true
        ∷ Answer.accepted false
        ∷ Answer.accepted true
        ∷ Answer.executed (fill 1 990 ∷ [])
        ∷ Answer.accepted true
        ∷ Answer.accepted false
        ∷ [])
unfolding run step place_order cancel_by_client_order_id cancel_order id_of_client check_fills
    check_market check_orders check_order after_check fill_order should_fill_mode
    should_fill_strict_cross fill_result to_snapshot advance_for get put pop contains include
    discard same_text digits
commands-run = refl

run_refines_example :
    let (told, b) = spec_run (dec_tenths 1) commands (book_of fresh) in
    let out = run commands fresh in (out.0 ≡ ok told) × (book_of out.1 ≡ b) × IsBook out.1
run_refines_example = run_refines commands fresh fresh-IsBook (λ e. cc e) commands-AllValid
