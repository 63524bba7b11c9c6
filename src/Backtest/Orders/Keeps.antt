-- ===== src/Backtest/Orders/Keeps.antt =====
-- The operations keep the book well-formed: apps/backtest/src/backtest/order_manager.py.
use grid_bot_validation.Prelude.{
  ℕ, ◌+◌, ◌≡◌, refl, sym, ap, ◌∙◌, inl, inr, true, false, none, some, [], ◌∷◌, ◌++◌, drop, arith,
  Bool-cases,
}
use grid_bot_validation.Text.{Text, same_text, same_text-to, same_text-of}
use grid_bot_validation.Text.Digits.{padded_injective}
use grid_bot_validation.Dict.{Dict, get, contains}
use grid_bot_validation.Backtest.{OrderStatus, SimulatedOrder}
use grid_bot_validation.Backtest.Fills.Modes.{IsSide}
use grid_bot_validation.Backtest.Orders.{
  BacktestOrderManager, Placement, sim_id, placed_order, activate, deactivate, place_order,
  cancel_order, id_of_client, cancel_by_client_order_id,
}
use grid_bot_validation.Backtest.Orders.Book.{has_client, IsBook}
use grid_bot_validation.Backtest.Orders.Change.{IsBook-add}

sim_id_injective : (n k : ℕ) → sim_id n ≡ sim_id k → n ≡ k
sim_id_injective n k h = padded_injective 8 n k (ap (drop 4) h)

module _ {D : Type 0} where
  pub place_order-refused :
      (p : Placement D) (m : BacktestOrderManager D)
      → contains m.client_order_ids p.client_order_id ≡ true
      → place_order p m ≡ (none, m)
  unfolding place_order
  place_order-refused p m h = rw h refl

  abbrev pub placed_manager : Placement D → BacktestOrderManager D → BacktestOrderManager D
  placed_manager p m =
      let order_id = sim_id (m.order_counter + 1) in
      activate order_id (placed_order order_id p) (record m { order_counter = m.order_counter + 1 })

  pub place_order-accepted :
      (p : Placement D) (m : BacktestOrderManager D)
      → contains m.client_order_ids p.client_order_id ≡ false
      → place_order p m ≡ (some (placed_order (sim_id (m.order_counter + 1)) p), placed_manager p m)
  unfolding place_order
  place_order-accepted p m h = rw h refl

  pub placed_manager-IsBook :
      (p : Placement D) (m : BacktestOrderManager D)
      → IsBook m
      → IsSide p.side
      → contains m.client_order_ids p.client_order_id ≡ false
      → IsBook (placed_manager p m)
  placed_manager-IsBook p m book side h =
      let n = m.order_counter + 1 in
      IsBook-add m (sim_id n) (placed_order (sim_id n) p) n book (book.unused n (omega arith))
        (sym (book.known p.client_order_id) ∙ h) refl side (omega arith)
        (λ k later same. omega (arith, sim_id_injective k n same))

  -- Where an active order with a client order id stands.
  pub record Found (id : Text) (d : Dict (SimulatedOrder D)) : Type 0 where
    pub kept : Dict (SimulatedOrder D)
    pub entry : Text × SimulatedOrder D
    pub others : Dict (SimulatedOrder D)
    pub parts : d ≡ kept ++ entry ∷ others
    pub own_client : entry.1.client_order_id ≡ id
    pub not_before : has_client id kept ≡ false
    pub at_id : id_of_client id d ≡ some entry.0

  pub found : (id : Text) (d : Dict (SimulatedOrder D)) → has_client id d ≡ true → Found id d
  unfolding has_client id_of_client
  found id [] h = absurd (cc h)
  found id (e ∷ es) h = elim (Bool-cases (same_text e.1.client_order_id id)) [
    | inl here ↦ record {
      kept = [];
      entry = e;
      others = es;
      parts = refl;
      own_client = same_text-to e.1.client_order_id id here;
      not_before = refl;
      at_id = rw here refl;
    }
    | inr other ↦
        let rest = found id es (ground arith) in
        record {
          kept = e ∷ rest.kept;
          entry = rest.entry;
          others = rest.others;
          parts = ap (◌∷◌ e) rest.parts;
          own_client = rest.own_client;
          not_before = ground (arith, rest.not_before);
          at_id = rw other rest.at_id;
        }
  ]

  pub id_of_client-none :
      (id : Text) (d : Dict (SimulatedOrder D)) → has_client id d ≡ false → id_of_client id d ≡ none
  unfolding has_client id_of_client
  id_of_client-none id [] h = refl
  id_of_client-none id (e ∷ es) h = ground (arith, id_of_client-none id es)

  pub get_at :
      (kept : Dict (SimulatedOrder D)) (e : Text × SimulatedOrder D) (es : Dict (SimulatedOrder D))
      → get kept e.0 ≡ none
      → get (kept ++ e ∷ es) e.0 ≡ some e.1
  unfolding get
  get_at [] e es h = rw (same_text-of e.0) refl
  get_at (k ∷ ks) e es h = ground (arith, get_at ks e es)

  abbrev pub cancelled_manager :
      Text → SimulatedOrder D → BacktestOrderManager D → BacktestOrderManager D
  cancelled_manager key o m =
      let m' = deactivate key o m in
      record m' {
        cancelled_orders = m'.cancelled_orders ++ record o { status = OrderStatus.cancelled } ∷ [];
      }

  pub cancel_order-found :
      (key : Text) (m : BacktestOrderManager D) (o : SimulatedOrder D)
      → get m.active_orders key ≡ some o
      → cancel_order key m ≡ (true, cancelled_manager key o m)
  unfolding cancel_order
  cancel_order-found key m o h = rw (h, cancel_order) refl

  pub cancel_by_client_found :
      (id : Text) (m : BacktestOrderManager D) (key : Text) (o : SimulatedOrder D)
      → id_of_client id m.active_orders ≡ some key
      → get m.active_orders key ≡ some o
      → cancel_by_client_order_id id m ≡ (true, cancelled_manager key o m)
  unfolding cancel_by_client_order_id
  cancel_by_client_found id m key o h k =
      rw (h, cancel_by_client_order_id) (cancel_order-found key m o k)

  pub cancel_by_client_missing :
      (id : Text) (m : BacktestOrderManager D)
      → id_of_client id m.active_orders ≡ none
      → cancel_by_client_order_id id m ≡ (false, m)
  unfolding cancel_by_client_order_id
  cancel_by_client_missing id m h = rw (h, cancel_by_client_order_id) refl

  pub cancelled_manager-IsBook :
      (key : Text) (o : SimulatedOrder D) (m : BacktestOrderManager D)
      → IsBook (deactivate key o m)
      → IsBook (cancelled_manager key o m)
  cancelled_manager-IsBook key o m b = record {
    keyed = b.keyed;
    known = b.known;
    unused = b.unused;
  }
