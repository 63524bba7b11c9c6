-- ===== src/Engine/Stamped/Events.antt =====
-- What the handlers of the engine tell `on_change`: packages/gridcore/src/gridcore/engine.py.
use grid_bot_validation.Prelude.{
  ℕ, ◌+◌, ◌≡◌, refl, inl, inr, false, Option, none, some, List, [], ◌++◌, Bool-cases, Option-cases,
  length, ◌==◌, ltb,
}
use grid_bot_validation.Float.{Floats}
use grid_bot_validation.Outcome.{ok, Action, ◌>>=◌, ◌>>◌, pure, modify, Result-cases}
use grid_bot_validation.Grid.Level.{Grid}
use grid_bot_validation.Grid.Check.{bounds}
use grid_bot_validation.Grid.Update.{update_grid}
use grid_bot_validation.Engine.Place.{cancel_all_limits}
use grid_bot_validation.Engine.Types.{
  Direction, CancelReason, Limit, LimitOrders, Intent, Event, Engine,
}
use grid_bot_validation.Engine.Handle.{
  on_grid, set_exchange_ts, ensure_grid, consume_fill, check_and_place, ticker_body, execution_body,
  handle_ticker_event, handle_execution_event, on_event, in_range, build_price, may_consume,
  rebuild_at, or_none,
}
use grid_bot_validation.Engine.Stamped.{Told, Told-refl, IsStamping, still, bind-AllStamping}
use grid_bot_validation.Engine.Stamped.GridSteps.{build_grid-IsStamping, update_grid-IsStamping}

module _ {F : Type 0} ⦃fl : Floats F⦄ where
  abbrev grid_of : Engine F → Grid F
  grid_of e = e.grid

  ensure_grid-IsStamping : (p : F) (e : Engine F) → IsStamping e.grid (ensure_grid p e).1.grid
  unfolding ensure_grid
  ensure_grid-IsStamping p e = elim (Bool-cases (length e.grid.levels == 0)) [
    | inl empty ↦ rw empty (build_grid-IsStamping (build_price e.anchor_price p) e.grid)
    | inr filled ↦ elim (Result-cases (bounds e.grid.levels)) [
      | inl (x, failed) ↦ rw (filled, failed) (still e.grid e.grid refl refl)
      | inr (range, known) ↦ elim (Bool-cases (in_range range p)) [
        | inl inside ↦ rw (filled, known, inside) (still e.grid e.grid refl refl)
        | inr outside ↦ rw (filled, known, outside) (build_grid-IsStamping p e.grid)
      ]
    ]
  ]

  consume_fill-IsStamping : (e : Engine F) → IsStamping e.grid (consume_fill e).1.grid
  unfolding consume_fill
  consume_fill-IsStamping e = elim (Bool-cases (may_consume e)) [
    | inl due ↦ rw due (
        bind-AllStamping grid_of (on_grid (update_grid e.last_filled_price e.last_close))
          (λ _. modify (λ e'. record e' { fill_pending = false }))
          (λ e'. update_grid-IsStamping e.last_filled_price e.last_close e'.grid)
          (λ _ e'. still e'.grid e'.grid refl refl) e)
    | inr idle ↦ rw idle (still e.grid e.grid refl refl)
  ]

  rebuild_at-IsStamping : (p : Option F) (e : Engine F) → IsStamping e.grid (rebuild_at p e).1.grid
  rebuild_at-IsStamping none e = still e.grid e.grid refl refl
  rebuild_at-IsStamping (some p) e = build_grid-IsStamping p e.grid

  check_and_place-IsStamping :
      (d : Direction) (limits : List (Limit F)) (e : Engine F)
      → IsStamping e.grid (check_and_place d limits e).1.grid
  unfolding check_and_place
  check_and_place-IsStamping d limits e =
      elim (Bool-cases (ltb (length e.grid.levels + 10) (length limits))) [
        | inl many ↦ rw many (
            bind-AllStamping grid_of (rebuild_at e.last_close)
              (λ _ e'. (ok (cancel_all_limits e' CancelReason.rebuild limits), e'))
              (rebuild_at-IsStamping e.last_close) (λ _ e'. still e'.grid e'.grid refl refl) e)
        | inr few ↦ rw few (still e.grid e.grid refl refl)
      ]

  ticker_body-IsStamping :
      (p : F) (orders : LimitOrders F) (e : Engine F)
      → IsStamping e.grid (ticker_body p orders e).1.grid
  unfolding ticker_body
  ticker_body-IsStamping p orders e =
      let both : Action (Engine F) (List (Intent F)) = do
        long_intents ← check_and_place Direction.long orders.long_orders
        short_intents ← check_and_place Direction.short orders.short_orders
        pure (long_intents ++ short_intents)
      in let priced : Engine F → Engine F = λ e'. record e' { last_close = some p } in
        bind-AllStamping grid_of (modify priced) (λ _. ensure_grid p >> (consume_fill >> both))
          (λ e'. still e'.grid e'.grid refl refl)
          (λ _.
            bind-AllStamping grid_of (ensure_grid p) (λ _. consume_fill >> both)
              (ensure_grid-IsStamping p)
              (λ _.
                bind-AllStamping grid_of consume_fill (λ _. both) consume_fill-IsStamping
                  (λ _.
                    bind-AllStamping grid_of (check_and_place Direction.long orders.long_orders)
                      (λ is. check_and_place Direction.short orders.short_orders >>= λ js.
                        pure (is ++ js))
                      (check_and_place-IsStamping Direction.long orders.long_orders)
                      (λ is.
                        bind-AllStamping grid_of
                          (check_and_place Direction.short orders.short_orders)
                          (λ js. pure (is ++ js))
                          (check_and_place-IsStamping Direction.short orders.short_orders)
                          (λ _ e'. still e'.grid e'.grid refl refl)))))
          e

  execution_body-IsStamping : (q : F) (e : Engine F) → IsStamping e.grid (execution_body q e).1.grid
  unfolding execution_body
  execution_body-IsStamping q e = elim (Option-cases e.last_close) [
    | inl unknown ↦ rw unknown (still e.grid e.grid refl refl)
    | inr (p, known) ↦ rw known (
        bind-AllStamping grid_of (on_grid (update_grid (some q) (some p))) (λ _. pure [])
          (λ e''. update_grid-IsStamping (some q) (some p) e''.grid)
          (λ _ e''. still e''.grid e''.grid refl refl)
          (record e { last_filled_price = some q; last_close = some p }))
  ]

  -- The time stamp that an event hands to the grid.
  abbrev pub stamp_of : Event F → Option ℕ
  stamp_of (Event.ticker p ts) = some ts
  stamp_of (Event.execution p ts) = some ts
  stamp_of (Event.order_update status link id) = none
  stamp_of Event.other_event = none

  -- Whatever an event makes the engine do, be it to raise, every call of `on_change` during it bears
  -- the time stamp of that event, no earlier call is lost, and between events the grid holds no
  -- time stamp.
  pub on_event-stamps :
      (event : Event F) (orders : Option (LimitOrders F)) (e : Engine F)
      → e.grid.current_exchange_ts ≡ none
      → let after = (on_event event orders e).1.grid in
        Told (stamp_of event) e.grid.changes after.changes × (after.current_exchange_ts ≡ none)
  unfolding on_event handle_ticker_event handle_execution_event
  on_event-stamps (Event.ticker p ts) orders e idle =
      let e' = set_exchange_ts (some ts) e in
      ((ticker_body-IsStamping p (or_none orders) e').tells, refl)
  on_event-stamps (Event.execution p ts) orders e idle =
      let e' = set_exchange_ts (some ts) e in ((execution_body-IsStamping p e').tells, refl)
  on_event-stamps (Event.order_update status link id) orders e idle = (Told-refl none refl, idle)
  on_event-stamps Event.other_event orders e idle = (Told-refl none refl, idle)
