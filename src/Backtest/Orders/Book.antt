-- ===== src/Backtest/Orders/Book.antt =====
-- The well-formed order book: apps/backtest/src/backtest/order_manager.py.
use grid_bot_validation.Prelude.{
  ℕ, ◌<◌, ◌≡◌, refl, sym, ◌∙◌, Bool, false, ◌||◌, none, [], ◌∷◌, ◌++◌, arith,
}
use grid_bot_validation.Text.{Text, same_text, same_text-of, same_text_comm}
use grid_bot_validation.Dict.{Dict, get, put, pop, contains}
use grid_bot_validation.Backtest.{SimulatedOrder}
use grid_bot_validation.Backtest.Fills.Modes.{IsSide}
use grid_bot_validation.Backtest.Orders.{BacktestOrderManager, sim_id}

module _ {D : Type 0} where
  -- An active order has the client order id.
  unfoldable pub has_client : Text → Dict (SimulatedOrder D) → Bool
  has_client id [] = false
  has_client id (e ∷ es) = let rest = has_client id es in same_text e.1.client_order_id id || rest

  -- Each order stands under its own id, on a side that is known, and no two orders share an id or a
  -- client order id.
  unfoldable pub IsKeyed : Dict (SimulatedOrder D) → Type 0
  IsKeyed [] = Unit {0}
  IsKeyed (e ∷ es) =
      (e.1.order_id ≡ e.0)
      × IsSide e.1.side
      × (get es e.0 ≡ none)
      × (has_client e.1.client_order_id es ≡ false)
      × IsKeyed es

  pub record IsBook (m : BacktestOrderManager D) : Type 0 where
    pub keyed : IsKeyed m.active_orders
    pub known : (id : Text) → contains m.client_order_ids id ≡ has_client id m.active_orders
    pub unused : (n : ℕ) → m.order_counter < n → get m.active_orders (sim_id n) ≡ none

  pub get-append_none :
      (a b : Dict (SimulatedOrder D)) (key : Text)
      → get a key ≡ none
      → get b key ≡ none
      → get (a ++ b) key ≡ none
  unfolding get
  get-append_none [] b key h k = k
  get-append_none (e ∷ es) b key h k = ground (arith, get-append_none es b key)

  pub get_parts :
      (a b : Dict (SimulatedOrder D)) (key : Text)
      → get (a ++ b) key ≡ none
      → (get a key ≡ none) × (get b key ≡ none)
  unfolding get
  get_parts [] b key h = (refl, h)
  get_parts (e ∷ es) b key h = ground (arith, get_parts es b key)

  pub has_client-append :
      (id : Text) (a b : Dict (SimulatedOrder D))
      → has_client id (a ++ b) ≡ (has_client id a || has_client id b)
  unfolding has_client
  has_client-append id [] b = refl
  has_client-append id (e ∷ es) b = ground (arith, has_client-append id es b)

  -- A new key goes to the end.
  pub put_new :
      (d : Dict (SimulatedOrder D)) (key : Text) (o : SimulatedOrder D)
      → get d key ≡ none
      → put d key o ≡ d ++ (key, o) ∷ []
  unfolding get put
  put_new [] key o h = refl
  put_new (e ∷ es) key o h = ground (arith, put_new es key o)

  pub pop_at :
      (kept : Dict (SimulatedOrder D)) (e : Text × SimulatedOrder D) (es : Dict (SimulatedOrder D))
      → get kept e.0 ≡ none
      → pop (kept ++ e ∷ es) e.0 ≡ kept ++ es
  unfolding get pop
  pop_at [] e es h = ground (arith, same_text-of e.0)
  pop_at (k ∷ ks) e es h = ground (arith, pop_at ks e es)

  -- The order that stands between two parts of the book.
  pub record IsAt (kept : Dict (SimulatedOrder D)) (e : Text × SimulatedOrder D)
      (es : Dict (SimulatedOrder D)) : Type 0 where
    pub not_before : get kept e.0 ≡ none
    pub not_client_before : has_client e.1.client_order_id kept ≡ false
    pub entry : IsKeyed (e ∷ es)
    pub without_it : IsKeyed (kept ++ es)

  pub IsKeyed-split :
      (kept : Dict (SimulatedOrder D)) (e : Text × SimulatedOrder D) (es : Dict (SimulatedOrder D))
      → IsKeyed (kept ++ e ∷ es)
      → IsAt kept e es
  unfolding IsKeyed has_client get
  IsKeyed-split [] e es (own, side, key, client, rest) = record {
    not_before = refl;
    not_client_before = refl;
    entry = (own, side, key, client, rest);
    without_it = rest;
  }
  IsKeyed-split (k ∷ ks) e es (own, side, key, client, rest) =
      let at = IsKeyed-split ks e es rest in
      let (key_a, key_b) = get_parts ks (e ∷ es) k.0 key in
      let clients = sym (has_client-append k.1.client_order_id ks (e ∷ es)) ∙ client in
      let swapped = same_text_comm e.0 k.0 in
      let swapped_client = same_text_comm e.1.client_order_id k.1.client_order_id in
      let key_rest : get es k.0 ≡ none = ground (arith, key_b) in
      let client_rest : has_client k.1.client_order_id es ≡ false = ground (arith, clients) in
      let client_kept : has_client k.1.client_order_id ks ≡ false = ground (arith, clients) in
      record {
        not_before = ground (arith, at.not_before, key_b, swapped);
        not_client_before = ground (arith, at.not_client_before, clients, swapped_client);
        entry = at.entry;
        without_it = (
          own,
          side,
          get-append_none ks es k.0 key_a key_rest,
          ground (arith, has_client-append k.1.client_order_id ks es, client_rest, client_kept),
          at.without_it,
        );
      }

  pub IsKeyed-add :
      (d : Dict (SimulatedOrder D)) (key : Text) (o : SimulatedOrder D)
      → IsKeyed d
      → get d key ≡ none
      → has_client o.client_order_id d ≡ false
      → o.order_id ≡ key
      → IsSide o.side
      → IsKeyed (d ++ (key, o) ∷ [])
  unfolding IsKeyed has_client get
  IsKeyed-add [] key o keyed h k own side = (own, side, refl, refl, tt)
  IsKeyed-add (e ∷ es) key o (own', side', key', client, rest) h k own side =
      let swapped = same_text_comm e.0 key in
      let swapped_client = same_text_comm e.1.client_order_id o.client_order_id in
      let later : get es key ≡ none = ground (arith, h) in
      let last : get {V = SimulatedOrder D} ((key, o) ∷ []) e.0 ≡ none =
        ground (arith, h, swapped) in
      let later_client : has_client o.client_order_id es ≡ false = ground (arith, k) in
      let last_client : has_client e.1.client_order_id ((key, o) ∷ []) ≡ false =
        ground (arith, k, swapped_client) in
      (
        own',
        side',
        get-append_none es ((key, o) ∷ []) e.0 key' last,
        ground
            (arith, has_client-append e.1.client_order_id es ((key, o) ∷ []), client, last_client),
        IsKeyed-add es key o rest later later_client own side,
      )
