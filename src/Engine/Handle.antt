-- ===== src/Engine/Handle.antt =====
-- The event handlers of the engine: `on_event` and the methods below it, and `__init__`, of
-- packages/gridcore/src/gridcore/engine.py.
use grid_bot_validation.Prelude.{
  ℕ, ◌+◌, ltb, ◌==◌, Bool, true, false, ◌&&◌, not, Option, none, some, List, [], ◌∷◌, ◌++◌, length,
  if◌then◌else◌,
}
use grid_bot_validation.Float.{Floats, int}
use grid_bot_validation.Outcome.{Result, ok, err, Action, and_then, ◌>>=◌, ◌>>◌, pure, modify}
use grid_bot_validation.Grid.Level.{Grid, init as init_grid}
use grid_bot_validation.Grid.Build.{build_grid}
use grid_bot_validation.Grid.Check.{bounds}
use grid_bot_validation.Grid.Check.Restore.{SavedLevel, restore_grid}
use grid_bot_validation.Grid.Update.{update_grid}
use grid_bot_validation.Engine.Types.{
  Direction, GridConfig, Limit, LimitOrders, Identity, CancelReason, Intent, OrderStatus, Event,
  Engine,
}
use grid_bot_validation.Engine.Place.{cancel_all_limits, place_grid_orders}

-- `self.pending_orders`: `d[k] = v` and `d.pop(k, None)`.
unfoldable pub insert : ℕ → ℕ → List (ℕ × ℕ) → List (ℕ × ℕ)
insert k v [] = (k, v) ∷ []
insert k v ((j, w) ∷ d) = if k == j then (k, v) ∷ d else (j, w) ∷ insert k v d

unfoldable pub remove : ℕ → List (ℕ × ℕ) → List (ℕ × ℕ)
remove k [] = []
remove k ((j, w) ∷ d) = if k == j then d else (j, w) ∷ remove k d

-- `_handle_order_update_event`
unfoldable pub track : OrderStatus → (order_link_id order_id : ℕ) → List (ℕ × ℕ) → List (ℕ × ℕ)
unfolding insert remove
track OrderStatus.new_order link id d = insert link id d
track OrderStatus.partially_filled link id d = insert link id d
track OrderStatus.filled link id d = remove link d
track OrderStatus.cancelled link id d = remove link d
track OrderStatus.rejected link id d = remove link d
track OrderStatus.other_status link id d = d

module _ {F : Type 0} where
  -- A call of a method of `self.grid`.
  abbrev pub on_grid : {A : Type 0} → Action (Grid F) A → Action (Engine F) A
  on_grid m e = let (r, g) = m e.grid in (r, record e { grid = g })

  -- `self.grid._current_exchange_ts = ts`
  abbrev pub set_exchange_ts : Option ℕ → Engine F → Engine F
  set_exchange_ts ts e = record e { grid = record e.grid { current_exchange_ts = ts } }

  -- `try: … finally: self.grid._current_exchange_ts = None`
  abbrev pub with_exchange_ts : {A : Type 0} → ℕ → Action (Engine F) A → Action (Engine F) A
  with_exchange_ts ts m e =
      let (r, e') = m (set_exchange_ts (some ts) e) in (r, set_exchange_ts none e')

module _ {F : Type 0} ⦃fl : Floats F⦄ where
  abbrev restored : Option (List (SavedLevel F)) → Action (Grid F) Bool
  restored none g = (ok false, g)
  restored (some saved) g = restore_grid saved g

  -- `GridEngine.__init__`, which a saved price out of range ends
  unfoldable pub init :
      (digest : Identity F → ℕ) (symbol strat_id : ℕ)
      → GridConfig F
      → (tick_size : F) → (anchor_price : Option F) → (restored_grid : Option (List (SavedLevel F)))
      → (observed : Bool) → Result (Engine F)
  unfolding restore_grid
  init digest symbol strat_id config tick_size anchor_price restored_grid observed =
      let (r, grid) = restored restored_grid (
        init_grid tick_size config.grid_count config.grid_step config.rebalance_threshold
          observed) in
      and_then r λ _. ok (record {
        symbol = symbol;
        strat_id = strat_id;
        digest = digest;
        anchor_price = anchor_price;
        grid = grid;
        last_close = none;
        last_filled_price = none;
        fill_pending = false;
        pending_orders = [];
      })

  -- `self._anchor_price if self._anchor_price else self.last_close`
  abbrev pub build_price : Option F → F → F
  build_price none last_close = last_close
  build_price (some anchor) last_close = if fl.eq anchor (int 0) then last_close else anchor

  abbrev pub in_range : F × F → F → Bool
  in_range (lo, hi) last_close = fl.le lo last_close && fl.le last_close hi

  -- The first part of the ticker handler: build an empty grid, or rebuild one that the price left.
  unfoldable pub ensure_grid : F → Action (Engine F) (Unit {0})
  ensure_grid last_close e =
      if length e.grid.levels == 0
      then on_grid (build_grid (build_price e.anchor_price last_close)) e
      else elim (bounds e.grid.levels) [
        | err x ↦ (err x, e)
        | ok range ↦
            if in_range range last_close then (ok tt, e) else on_grid (build_grid last_close) e
      ]

  abbrev is_some : Option F → Bool
  is_some none = false
  is_some (some _) = true

  abbrev pub may_consume : Engine F → Bool
  may_consume e = e.fill_pending && is_some e.last_filled_price && not (length e.grid.levels == 0)

  -- The second part: apply a fill that came before the first price.
  unfoldable pub consume_fill : Action (Engine F) (Unit {0})
  consume_fill e =
      if may_consume e
      then (do
        on_grid (update_grid e.last_filled_price e.last_close)
        modify (λ e'. record e' { fill_pending = false }))
          e
      else (ok tt, e)

  abbrev pub rebuild_at : Option F → Action (Engine F) (Unit {0})
  rebuild_at none e = (ok tt, e)
  rebuild_at (some last_close) e = on_grid (build_grid last_close) e

  -- `_check_and_place`
  unfoldable pub check_and_place : Direction → List (Limit F) → Action (Engine F) (List (Intent F))
  check_and_place direction limits e =
      if ltb (length e.grid.levels + 10) (length limits)
      then (do
        rebuild_at e.last_close
        λ e'. (ok (cancel_all_limits e' CancelReason.rebuild limits), e'))
          e
      else (place_grid_orders e limits direction, e)

  -- `_handle_ticker_event_body`
  unfoldable pub ticker_body : F → LimitOrders F → Action (Engine F) (List (Intent F))
  ticker_body last_price orders = do
    modify λ e. record e { last_close = some last_price }
    ensure_grid last_price
    consume_fill
    long_intents ← check_and_place Direction.long orders.long_orders
    short_intents ← check_and_place Direction.short orders.short_orders
    pure (long_intents ++ short_intents)

  unfoldable pub handle_ticker_event :
      (last_price : F) (exchange_ts : ℕ) → LimitOrders F → Action (Engine F) (List (Intent F))
  handle_ticker_event last_price ts orders = with_exchange_ts ts (ticker_body last_price orders)

  unfoldable pub execution_body : F → Action (Engine F) (List (Intent F))
  execution_body price e =
      let e' = record e { last_filled_price = some price } in
      elim e.last_close [
        | none ↦ (ok [], record e' { fill_pending = true })
        | some last_close ↦ (do on_grid (update_grid (some price) (some last_close)); pure []) e'
      ]

  unfoldable pub handle_execution_event : F → ℕ → Action (Engine F) (List (Intent F))
  handle_execution_event price ts = with_exchange_ts ts (execution_body price)

  abbrev no_orders : LimitOrders F
  no_orders = record { long_orders = []; short_orders = [] }

  -- `limit_orders or {'long': [], 'short': []}`
  abbrev pub or_none : Option (LimitOrders F) → LimitOrders F
  or_none none = no_orders
  or_none (some orders) = orders

  unfoldable pub on_event : Event F → Option (LimitOrders F) → Action (Engine F) (List (Intent F))
  on_event (Event.ticker price ts) orders e = handle_ticker_event price ts (or_none orders) e
  on_event (Event.execution price ts) orders e = handle_execution_event price ts e
  on_event (Event.order_update status link id) orders e =
      (ok [], record e { pending_orders = track status link id e.pending_orders })
  on_event Event.other_event orders e = (ok [], e)
