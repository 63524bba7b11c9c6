-- ===== src/Backtest/Orders/Refines.antt =====
-- The order book does what its specification says: apps/backtest/src/backtest/order_manager.py.
use grid_bot_validation.Prelude.{
  ℕ, ◌+◌, ◌≡◌, ◌≢◌, refl, sym, ap, ap₂, subst, ◌∙◌, inl, inr, true, false, Option, none, some, List,
  [], ◌∷◌, ◌++◌, map, arith, Bool-cases,
}
use grid_bot_validation.Text.{Text, same_text, same_text-of}
use grid_bot_validation.Dict.{Dict, get, contains}
use grid_bot_validation.Outcome.{Action, ok, ◌>>=◌, pure, bind_ok}
use grid_bot_validation.Decimal.{Decimals, le, zero_dec}
use grid_bot_validation.Backtest.{TickerEvent, Market, SimulatedOrder}
use grid_bot_validation.Backtest.Fills.{FillMode, TradeThroughFillSimulator, advance_for, is_token}
use grid_bot_validation.Backtest.Fills.Modes.{IsSide}
use grid_bot_validation.Backtest.Orders.{
  BacktestOrderManager, Placement, ExecutionEvent, sim_id, placed_order, check_orders, check_market,
  check_fills,
}
use grid_bot_validation.Backtest.Orders.Book.{IsKeyed, IsBook, IsKeyed-split, has_client, put_new}
use grid_bot_validation.Backtest.Orders.Change.{IsBook-remove}
use grid_bot_validation.Backtest.Orders.Keeps.{
  place_order-refused, place_order-accepted, placed_manager-IsBook, found, id_of_client-none,
  get_at, cancel_by_client_missing, cancel_by_client_found, cancelled_manager-IsBook,
}
use grid_bot_validation.Backtest.Orders.Spec.{
  is_some, Command, Answer, OrderBook, open_of, book_of, has_open, without_open, fill_of, spec_step,
  step, seen, scope, run, spec_run,
}
use grid_bot_validation.Backtest.Orders.Loop.{check_orders-Looped, open_of-append}

module _ {D : Type 0} where
  has_open-open_of :
      (id : Text) (d : Dict (SimulatedOrder D)) → has_open id (open_of d) ≡ has_client id d
  unfolding has_open open_of has_client
  has_open-open_of id [] = refl
  has_open-open_of id (e ∷ es) = ground (arith, has_open-open_of id es)

  without_open_none :
      (id : Text) (ps : List (Placement D)) → has_open id ps ≡ false → without_open id ps ≡ ps
  unfolding has_open without_open
  without_open_none id [] h = refl
  without_open_none id (p ∷ ps) h = ground (arith, without_open_none id ps)

  without_open_at :
      (id : Text) (kept : Dict (SimulatedOrder D)) (e : Text × SimulatedOrder D)
      (es : Dict (SimulatedOrder D))
      → has_client id kept ≡ false
      → e.1.client_order_id ≡ id
      → without_open id (open_of (kept ++ e ∷ es)) ≡ open_of (kept ++ es)
  unfolding without_open open_of has_client
  without_open_at id [] e es h own =
      let here : same_text e.1.client_order_id id ≡ true =
        subst (λ k. same_text e.1.client_order_id k ≡ true) own
          (same_text-of e.1.client_order_id) in
      rw here refl
  without_open_at id (k ∷ ks) e es h own = ground (arith, without_open_at id ks e es, own)

  unfoldable pub Valid : Command D → Type 0
  Valid (Command.place p) = IsSide p.side
  Valid (Command.cancel id) = Unit {0}
  Valid (Command.fills market ts symbol) = Unit {0}

  unfoldable pub AllValid : List (Command D) → Type 0
  AllValid [] = Unit {0}
  AllValid (c ∷ cs) = Valid c × AllValid cs

module _ {D : Type 0} ⦃dec : Decimals D⦄ where
  -- A step of the manager and what the specification says of it.
  record Refined (c : Command D) (m : BacktestOrderManager D) : Type 0 where
    answer : (step c m).0 ≡ ok (spec_step m.commission_rate c (book_of m)).0
    state : book_of (step c m).1 ≡ (spec_step m.commission_rate c (book_of m)).1
    book : IsBook (step c m).1
    same_rate : (step c m).1.commission_rate ≡ m.commission_rate
    same_mode : (step c m).1.fill_simulator.mode ≡ m.fill_simulator.mode

  Refined-of :
      (c : Command D) (m : BacktestOrderManager D) {a : Answer D} {m' : BacktestOrderManager D}
      {b : OrderBook D}
      → step c m ≡ (ok a, m')
      → spec_step m.commission_rate c (book_of m) ≡ (a, b)
      → book_of m' ≡ b
      → IsBook m'
      → m'.commission_rate ≡ m.commission_rate
      → m'.fill_simulator.mode ≡ m.fill_simulator.mode
      → Refined c m
  Refined-of c m does says same book rate mode = record {
    answer = ap (λ x. x.0) does ∙ sym (ap (λ x. ok x.0) says);
    state = ap (λ x. book_of x.1) does ∙ same ∙ sym (ap (λ x. x.1) says);
    book = subst (λ x. IsBook x.1) (sym does) book;
    same_rate = ap (λ x. x.1.commission_rate) does ∙ rate;
    same_mode = ap (λ x. x.1.fill_simulator.mode) does ∙ mode;
  }

  place-Refined :
      (p : Placement D) (m : BacktestOrderManager D)
      → IsBook m
      → IsSide p.side
      → Refined (Command.place p) m
  unfolding step spec_step open_of
  place-Refined p m book side =
      let d = m.active_orders in
      let id = p.client_order_id in
      let same : contains m.client_order_ids id ≡ has_open id (open_of d) =
        book.known id ∙ sym (has_open-open_of id d) in
      let key = sim_id (m.order_counter + 1) in
      let o = placed_order key p in
      elim (Bool-cases (contains m.client_order_ids id)) [
        | inl taken ↦
            Refined-of (Command.place p) m
              (ap (λ x. (ok (Answer.accepted (is_some x.0)), x.1)) (place_order-refused p m taken))
              (rw (sym same ∙ taken) refl) refl book refl refl
        | inr free ↦
            let new = put_new d key o (book.unused (m.order_counter + 1) (omega arith)) in
            Refined-of (Command.place p) m
              (ap (λ x. (ok (Answer.accepted (is_some x.0)), x.1)) (place_order-accepted p m free))
              (rw (sym same ∙ free) refl)
              (ap (λ x. record { simulator = m.fill_simulator; orders = x })
                (ap open_of new ∙ open_of-append d ((key, o) ∷ [])))
              (placed_manager-IsBook p m book side free) refl refl
      ]

  cancel-Refined :
      (id : Text) (m : BacktestOrderManager D) → IsBook m → Refined (Command.cancel id) m
  unfolding step spec_step
  cancel-Refined id m book =
      let d = m.active_orders in
      let same = has_open-open_of id d in
      let with_orders : List (Placement D) → OrderBook D =
        λ x. record { simulator = m.fill_simulator; orders = x } in
      elim (Bool-cases (has_client id d)) [
        | inr missing ↦
            Refined-of (Command.cancel id) m
              (ap (λ x. (ok (Answer.accepted x.0), x.1))
                (cancel_by_client_missing id m (id_of_client-none id d missing)))
              (ap₂ (λ x y. (Answer.accepted x, with_orders y)) (same ∙ missing)
                (without_open_none id (open_of d) (same ∙ missing)))
              refl book refl refl
        | inl there ↦
            let f = found id d there in
            let at = IsKeyed-split f.kept f.entry f.others (subst IsKeyed f.parts book.keyed) in
            let removed = IsBook-remove m f.kept f.entry f.others book f.parts in
            let got =
              ap (λ x. get x f.entry.0) f.parts ∙ get_at f.kept f.entry f.others at.not_before in
            Refined-of (Command.cancel id) m
              (ap (λ x. (ok (Answer.accepted x.0), x.1))
                (cancel_by_client_found id m f.entry.0 f.entry.1 f.at_id got))
              (ap₂ (λ x y. (Answer.accepted x, with_orders y)) (same ∙ there)
                (ap (λ x. without_open id (open_of x)) f.parts
                  ∙ without_open_at id f.kept f.entry f.others f.not_before f.own_client))
              (ap (λ x. with_orders (open_of x)) removed.1)
              (cancelled_manager-IsBook f.entry.0 f.entry.1 m removed.0) refl refl
      ]

  advance_for-mode :
      (sim : TradeThroughFillSimulator D) (t : TickerEvent D) (symbol : Option Text)
      → (advance_for sim t symbol).mode ≡ sim.mode
  unfolding advance_for
  advance_for-mode sim t none = refl
  advance_for-mode sim t (some s) = elim (Bool-cases (le t.last_price zero_dec)) [
    | inl nothing ↦ rw nothing refl
    | inr positive ↦
        elim (Bool-cases (is_token (get sim.tick_token s) (s, t.exchange_ts, t.local_ts))) [
          | inl again ↦ rw (positive, again) refl
          | inr new ↦ rw (positive, new) refl
        ]
  ]

  seen-mode :
      (market : Market D) (sim : TradeThroughFillSimulator D) → (seen market sim).mode ≡ sim.mode
  seen-mode (Market.ticker t) sim = advance_for-mode sim t t.symbol
  seen-mode (Market.bare price) sim = refl

  -- `check_fills` with a time stamp is its loop, after the simulator has seen the market.
  check_fills-loop :
      (market : Market D) (ts : ℕ) (symbol : Option Text) (m : BacktestOrderManager D)
      → check_fills (some market) (some ts) symbol none m
        ≡ check_orders market ts
            (scope market symbol)
            m.active_orders
            (record m { fill_simulator = seen market m.fill_simulator })
  unfolding check_fills check_market
  check_fills-loop (Market.ticker t) ts symbol m = refl
  check_fills-loop (Market.bare price) ts symbol m = refl

  fills-Refined :
      (market : Market D) (ts : ℕ) (symbol : Option Text) (m : BacktestOrderManager D)
      → IsBook m
      → m.fill_simulator.mode ≢ FillMode.event_follower
      → Refined (Command.fills market ts symbol) m
  unfolding step spec_step open_of
  fills-Refined market ts symbol m book mode =
      let m1 = record m { fill_simulator = seen market m.fill_simulator } in
      let book1 : IsBook m1 = record {
        keyed = book.keyed;
        known = book.known;
        unused = book.unused;
      } in
      let mode1 : m1.fill_simulator.mode ≢ FillMode.event_follower =
        λ e. mode (sym (seen-mode market m.fill_simulator) ∙ e) in
      let out = check_orders market ts (scope market symbol) m.active_orders m1 in
      let done =
        check_orders-Looped market ts (scope market symbol) m1 [] m.active_orders mode1 book1
          refl in
      let next : OrderBook D =
        (spec_step m.commission_rate (Command.fills market ts symbol) (book_of m)).1 in
      let told : List (ExecutionEvent D) → Action (BacktestOrderManager D) (Answer D) =
        λ events. pure (Answer.executed (map fill_of events)) in
      let check = check_fills (some market) (some ts) symbol none in
      let loop = check_fills-loop market ts symbol m in
      let does =
        bind_ok check told m (ap (λ x. x.0) loop ∙ done.returned)
        ∙ ap (λ x. told done.events x.1) loop in
      Refined-of (Command.fills market ts symbol) m does
        (ap (λ x. (Answer.executed x, next)) (sym done.told))
        (ap₂ (λ x y. record { simulator = x; orders = y }) done.same_simulator done.left) done.book
        done.same_rate (ap (λ x. x.mode) done.same_simulator ∙ seen-mode market m.fill_simulator)

  step-Refined :
      (c : Command D) (m : BacktestOrderManager D)
      → IsBook m
      → m.fill_simulator.mode ≢ FillMode.event_follower
      → Valid c
      → Refined c m
  unfolding Valid
  step-Refined (Command.place p) m book mode valid = place-Refined p m book valid
  step-Refined (Command.cancel id) m book mode valid = cancel-Refined id m book
  step-Refined (Command.fills market ts symbol) m book mode valid =
      fills-Refined market ts symbol m book mode

  -- Any run of placements on known sides, of cancels by client order id and of fill checks, in a
  -- well-formed book outside the event-follower mode: no step raises, the book stays well-formed,
  -- and the answers and the orders that are left open at the end are those of the specification,
  -- which has no ids, no index and no histories, and takes all fills of a check at once.
  pub run_refines :
      (cs : List (Command D)) (m : BacktestOrderManager D)
      → IsBook m
      → m.fill_simulator.mode ≢ FillMode.event_follower
      → AllValid cs
      → let (answers, b) = spec_run m.commission_rate cs (book_of m) in
        let out = run cs m in (out.0 ≡ ok answers) × (book_of out.1 ≡ b) × IsBook out.1
  unfolding run spec_run AllValid
  run_refines [] m book mode valid = (refl, refl, book)
  run_refines (c ∷ cs) m book mode (valid, all) =
      let one = step-Refined c m book mode valid in
      let m' = (step c m).1 in
      let (answers, state, kept) =
        run_refines cs m' one.book (λ e. mode (sym one.same_mode ∙ e)) all in
      let a = (spec_step m.commission_rate c (book_of m)).0 in
      let later : Answer D → Action (BacktestOrderManager D) (List (Answer D)) =
        λ x. run cs >>= λ more. pure (x ∷ more) in
      let full =
        bind_ok (step c) later m one.answer
        ∙ bind_ok (run cs) (λ more. pure (a ∷ more)) m' answers in
      let same = ap₂ (λ r b. spec_run r cs b) one.same_rate one.state in
      (
        ap (λ x. x.0) full ∙ ap (λ x. ok (a ∷ x.0)) same,
        ap (λ x. book_of x.1) full ∙ state ∙ ap (λ x. x.1) same,
        subst (λ x. IsBook x.1) (sym full) kept,
      )
