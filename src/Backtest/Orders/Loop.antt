-- ===== src/Backtest/Orders/Loop.antt =====
-- The loop of `check_fills`: apps/backtest/src/backtest/order_manager.py.
use grid_bot_validation.Prelude.{
  ℕ, ◌≡◌, ◌≢◌, refl, sym, ap, subst, ◌∙◌, inl, inr, Bool, true, false, not, Option, List, [], ◌∷◌,
  ◌++◌, map, append_assoc, append-nil, if◌then◌else◌, Bool-cases, Option-cases,
}
use grid_bot_validation.Text.{Text}
use grid_bot_validation.Dict.{Dict}
use grid_bot_validation.Outcome.{Action, Result, ok, err, ◌>>=◌, pure, bind_ok}
use grid_bot_validation.Decimal.{Decimals}
use grid_bot_validation.Backtest.{OrderSide, Market, SimulatedOrder}
use grid_bot_validation.Backtest.Fills.{
  FillMode, TradeThroughFillSimulator, MarketSnapshot, should_fill_mode, should_fill_last_cross,
  should_fill_book_touch, fill_result, to_snapshot,
}
use grid_bot_validation.Backtest.Fills.Modes.{IsSide}
use grid_bot_validation.Backtest.Orders.{
  BacktestOrderManager, ExecutionEvent, in_scope, fill_order, fill_event, deactivate, after_check,
  check_order, check_orders,
}
use grid_bot_validation.Backtest.Orders.Book.{IsKeyed, IsBook, IsKeyed-split}
use grid_bot_validation.Backtest.Orders.Change.{IsBook-remove}
use grid_bot_validation.Backtest.Orders.Spec.{
  placement_of, open_of, which, is_hit, full_fill, fill_of, fills_at,
}

module _ {D : Type 0} ⦃dec : Decimals D⦄ where
  book_touch-ok :
      (side : OrderSide) (limit_price : D) (snapshot : MarketSnapshot D)
      → IsSide side
      → let r = should_fill_book_touch side limit_price snapshot in r ≡ ok (fills_at r)
  unfolding should_fill_book_touch
  book_touch-ok OrderSide.buy limit_price snapshot h = elim (Option-cases snapshot.ask1_price) [
    | inl missing ↦ rw missing refl
    | inr (ask, given) ↦ rw given refl
  ]
  book_touch-ok OrderSide.sell limit_price snapshot h = elim (Option-cases snapshot.bid1_price) [
    | inl missing ↦ rw missing refl
    | inr (bid, given) ↦ rw given refl
  ]
  book_touch-ok OrderSide.other limit_price snapshot h = elim h [
    | inl buy ↦ absurd (cc buy)
    | inr sell ↦ absurd (cc sell)
  ]

  last_cross-ok :
      (sim : TradeThroughFillSimulator D) (side : OrderSide) (limit_price : D)
      (snapshot : MarketSnapshot D)
      → IsSide side
      → let r = should_fill_last_cross sim side limit_price snapshot in r ≡ ok (fills_at r)
  unfolding should_fill_last_cross
  last_cross-ok sim OrderSide.buy limit_price snapshot h = refl
  last_cross-ok sim OrderSide.sell limit_price snapshot h = refl
  last_cross-ok sim OrderSide.other limit_price snapshot h = elim h [
    | inl buy ↦ absurd (cc buy)
    | inr sell ↦ absurd (cc sell)
  ]

  -- Outside the event-follower mode an order on a known side can be checked.
  should_fill-ok :
      (m : FillMode) (sim : TradeThroughFillSimulator D) (side : OrderSide) (limit_price : D)
      (snapshot : MarketSnapshot D)
      → m ≢ FillMode.event_follower
      → IsSide side
      → let r = should_fill_mode m sim side limit_price snapshot in r ≡ ok (fills_at r)
  unfolding should_fill_mode
  should_fill-ok FillMode.strict_cross sim side limit_price snapshot h is_side = refl
  should_fill-ok FillMode.trade_through_at_limit sim side limit_price snapshot h is_side = refl
  should_fill-ok FillMode.book_touch sim side limit_price snapshot h is_side =
      book_touch-ok side limit_price snapshot is_side
  should_fill-ok FillMode.last_cross sim side limit_price snapshot h is_side =
      last_cross-ok sim side limit_price snapshot is_side
  should_fill-ok FillMode.event_follower sim side limit_price snapshot h is_side = absurd (h refl)

  abbrev pub round :
      Text × SimulatedOrder D
      → ℕ
      → Bool
      → BacktestOrderManager D
      → Result (List (ExecutionEvent D)) × BacktestOrderManager D
  round e ts hit m =
      if hit then (ok (fill_event m e.1 e.1.price ts ∷ []), fill_order e.0 e.1 ts m) else (ok [], m)

  after_check-round :
      (e : Text × SimulatedOrder D) (ts : ℕ) (m : BacktestOrderManager D) (r : Result Bool)
      → r ≡ ok (fills_at r)
      → after_check e.0 e.1 ts (fill_result e.1 r) m ≡ round e ts (fills_at r) m
  unfolding after_check fill_result
  after_check-round e ts m (ok true) h = refl
  after_check-round e ts m (ok false) h = refl
  after_check-round e ts m (err x) h = absurd (cc h)

  check_order-round :
      (market : Market D) (ts : ℕ) (symbol : Option Text) (e : Text × SimulatedOrder D)
      (m : BacktestOrderManager D)
      → m.fill_simulator.mode ≢ FillMode.event_follower
      → IsSide e.1.side
      → check_order market ts symbol e m
        ≡ round e ts (is_hit m.fill_simulator market symbol (placement_of e.1)) m
  unfolding check_order
  check_order-round market ts symbol e m mode side =
      let sim = m.fill_simulator in
      let snapshot = to_snapshot market in
      let answer = should_fill_mode sim.mode sim e.1.side e.1.price snapshot in
      let fine = should_fill-ok sim.mode sim e.1.side e.1.price snapshot mode side in
      elim (Bool-cases (in_scope symbol e.1.symbol)) [
        | inl inside ↦ rw inside (after_check-round e ts m answer fine)
        | inr outside ↦ rw outside refl
      ]

  -- The manager and the events after the loop over `es`, where `kept` has been passed over.
  pub record Looped (market : Market D) (ts : ℕ) (symbol : Option Text) (m : BacktestOrderManager D)
      (kept es : Dict (SimulatedOrder D))
      (out : Result (List (ExecutionEvent D)) × BacktestOrderManager D) : Type 0 where
    pub events : List (ExecutionEvent D)
    pub returned : out.0 ≡ ok events
    pub told :
        map fill_of events
        ≡ map
            (full_fill m.commission_rate ts)
            (which (is_hit m.fill_simulator market symbol) (open_of es))
    pub left :
        open_of out.1.active_orders
        ≡ open_of kept ++ which (λ p. not (is_hit m.fill_simulator market symbol p)) (open_of es)
    pub book : IsBook out.1
    pub same_simulator : out.1.fill_simulator ≡ m.fill_simulator
    pub same_rate : out.1.commission_rate ≡ m.commission_rate

  check_orders-cons :
      (market : Market D) (ts : ℕ) (symbol : Option Text) (e : Text × SimulatedOrder D)
      (es : Dict (SimulatedOrder D)) (m m' : BacktestOrderManager D)
      {fs more : List (ExecutionEvent D)}
      → check_order market ts symbol e m ≡ (ok fs, m')
      → (check_orders market ts symbol es m').0 ≡ ok more
      → check_orders market ts symbol (e ∷ es) m
        ≡ (ok (fs ++ more), (check_orders market ts symbol es m').1)
  unfolding check_orders
  check_orders-cons market ts symbol e es m m' {fs = fs} {more = more} first later =
      let rest : List (ExecutionEvent D)
          → Action (BacktestOrderManager D) (List (ExecutionEvent D)) =
        λ fills. check_orders market ts symbol es >>= λ others. pure (fills ++ others) in
      bind_ok (check_order market ts symbol e) rest m (ap (λ x. x.0) first)
      ∙ ap (λ x. rest fs x.1) first
      ∙ bind_ok (check_orders market ts symbol es) (λ others. pure (fs ++ others)) m' later

  pub open_of-append : (a b : Dict (SimulatedOrder D)) → open_of (a ++ b) ≡ open_of a ++ open_of b
  unfolding open_of
  open_of-append [] b = refl
  open_of-append (e ∷ es) b = ap (◌∷◌ (placement_of e.1)) (open_of-append es b)

  fill_order-IsBook :
      (e : Text × SimulatedOrder D) (ts : ℕ) (m : BacktestOrderManager D)
      → IsBook (deactivate e.0 e.1 m)
      → IsBook (fill_order e.0 e.1 ts m)
  unfolding fill_order
  fill_order-IsBook e ts m b = record { keyed = b.keyed; known = b.known; unused = b.unused }

  Looped-hit :
      (market : Market D) (ts : ℕ) (symbol : Option Text) (m : BacktestOrderManager D)
      (kept : Dict (SimulatedOrder D)) (e : Text × SimulatedOrder D) (es : Dict (SimulatedOrder D))
      → is_hit m.fill_simulator market symbol (placement_of e.1) ≡ true
      → check_order market ts symbol e m ≡ round e ts true m
      → let m' = fill_order e.0 e.1 ts m in
        Looped market ts symbol m' kept es (check_orders market ts symbol es m')
        → Looped market ts symbol m kept (e ∷ es) (check_orders market ts symbol (e ∷ es) m)
  unfolding fill_order which open_of
  Looped-hit market ts symbol m kept e es hit first rest =
      let m' = fill_order e.0 e.1 ts m in
      let event = fill_event m e.1 e.1.price ts in
      let full = check_orders-cons market ts symbol e es m m' first rest.returned in
      subst (Looped market ts symbol m kept (e ∷ es)) (sym full) (record {
        events = event ∷ rest.events;
        returned = refl;
        told = rw hit (ap (◌∷◌ (fill_of event)) rest.told);
        left = rw hit rest.left;
        book = rest.book;
        same_simulator = rest.same_simulator;
        same_rate = rest.same_rate;
      })

  Looped-miss :
      (market : Market D) (ts : ℕ) (symbol : Option Text) (m : BacktestOrderManager D)
      (kept : Dict (SimulatedOrder D)) (e : Text × SimulatedOrder D) (es : Dict (SimulatedOrder D))
      → is_hit m.fill_simulator market symbol (placement_of e.1) ≡ false
      → check_order market ts symbol e m ≡ round e ts false m
      → Looped market ts symbol m (kept ++ e ∷ []) es (check_orders market ts symbol es m)
      → Looped market ts symbol m kept (e ∷ es) (check_orders market ts symbol (e ∷ es) m)
  unfolding which open_of
  Looped-miss market ts symbol m kept e es miss first rest =
      let full = check_orders-cons market ts symbol e es m m first rest.returned in
      let others = which (λ p. not (is_hit m.fill_simulator market symbol p)) (open_of es) in
      let passed : open_of (kept ++ e ∷ []) ++ others ≡ open_of kept ++ placement_of e.1 ∷ others =
        ap (λ x. x ++ others) (open_of-append kept (e ∷ []))
        ∙ append_assoc (open_of kept) (placement_of e.1 ∷ []) others in
      subst (Looped market ts symbol m kept (e ∷ es)) (sym full) (record {
        events = rest.events;
        returned = refl;
        told = rw miss rest.told;
        left = rw miss (rest.left ∙ passed);
        book = rest.book;
        same_simulator = rest.same_simulator;
        same_rate = rest.same_rate;
      })

  pub check_orders-Looped :
      (market : Market D) (ts : ℕ) (symbol : Option Text) (m : BacktestOrderManager D)
      (kept es : Dict (SimulatedOrder D))
      → m.fill_simulator.mode ≢ FillMode.event_follower
      → IsBook m
      → m.active_orders ≡ kept ++ es
      → Looped market ts symbol m kept es (check_orders market ts symbol es m)
  unfolding check_orders which open_of IsKeyed fill_order
  check_orders-Looped market ts symbol m kept [] mode book parts = record {
    events = [];
    returned = refl;
    told = refl;
    left = ap open_of (parts ∙ append-nil kept) ∙ sym (append-nil (open_of kept));
    book = book;
    same_simulator = refl;
    same_rate = refl;
  }
  check_orders-Looped market ts symbol m kept (e ∷ es) mode book parts =
      let at = IsKeyed-split kept e es (subst IsKeyed parts book.keyed) in
      let first = check_order-round market ts symbol e m mode at.entry.1 in
      elim (Bool-cases (is_hit m.fill_simulator market symbol (placement_of e.1))) [
        | inl hit ↦
            let removed = IsBook-remove m kept e es book parts in
            let m' = fill_order e.0 e.1 ts m in
            Looped-hit market ts symbol m kept e es hit (first ∙ ap (λ b. round e ts b m) hit) (
              check_orders-Looped market ts symbol m' kept es mode
                (fill_order-IsBook e ts m removed.0) removed.1)
        | inr miss ↦
            Looped-miss market ts symbol m kept e es miss (first ∙ ap (λ b. round e ts b m) miss) (
              check_orders-Looped market ts symbol m (kept ++ e ∷ []) es mode book
                (parts ∙ sym (append_assoc kept (e ∷ []) es)))
      ]
