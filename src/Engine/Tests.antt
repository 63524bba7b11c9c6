-- ===== src/Engine/Tests.antt =====
-- Concrete runs of the engine, and the theorems at inputs that meet their hypotheses.
use grid_bot_validation.Prelude.{
  ◌⊎◌, ℕ, ◌+◌, ◌≤◌, ◌≡◌, refl, Bool, true, false, none, some, List, [], ◌∷◌,
}
use grid_bot_validation.Prelude.Int.{◌+ℤ◌, ◌-ℤ◌}
use grid_bot_validation.Float.Fixed.{Fixed, fixed_floats, fixed-IsOrdered}
use grid_bot_validation.Samples.{level, step, tenths, empty, around_100}
use grid_bot_validation.Outcome.{ok}
use grid_bot_validation.Grid.Level.{is_side, GridSideType, buy, sell}
use grid_bot_validation.Grid.Build.{has_duplicates, member, round_price}
use grid_bot_validation.Grid.Level.{notify_change}
use grid_bot_validation.Grid.Check.{bounds, bounds_from, min_grid, max_grid, min_from, max_from}
use grid_bot_validation.Grid.Update.{
  update_grid, rebuild_outside, is_outside, assign_sides, assign_side, is_too_close, center_grid,
  shift_up, shift_down, tally, tally_from,
}
use grid_bot_validation.Engine.Types.{
  Direction, ExecQty, Limit, CancelReason, Intent, Event, Engine,
}
use grid_bot_validation.Engine.Survivors.{
  limits_by_price, split_buckets, select_survivor, has_fill_history, extras_at, grid_side_at,
}
use grid_bot_validation.Engine.Place.{
  create, cancel_all_limits, sorted_grids, create_place_intent, survivor_at, check_level,
  check_levels, grid_price_set, outside_limits, place_grid_orders,
}
use grid_bot_validation.Engine.Handle.{
  on_event, handle_ticker_event, ticker_body, ensure_grid, consume_fill, check_and_place,
}
use grid_bot_validation.Engine.Pending.{on_event-clears_pending}
use grid_bot_validation.Engine.Cancels.Buckets.{occurs}
use grid_bot_validation.Engine.Cancels.Levels.{cancel_count}
use grid_bot_validation.Engine.Cancels.Once.{place_grid_orders-cancel_count}
use grid_bot_validation.Engine.Orders.{IsTradable, AllJustified}
use grid_bot_validation.Engine.Orders.Covered.{Has, place_grid_orders-covers}
use grid_bot_validation.Engine.Orders.Justified.{place_grid_orders-AllJustified}
use grid_bot_validation.Engine.Stamped.{Told}
use grid_bot_validation.Engine.Stamped.Events.{on_event-stamps}

abbrev engine : Engine Fixed
engine = record {
  symbol = 7;
  strat_id = 1;
  digest = λ i. i.strat_id + i.symbol;
  anchor_price = none;
  grid = record empty { levels = around_100 };
  last_close = some (tenths 1000);
  last_filled_price = none;
  fill_pending = false;
  pending_orders = [];
}

abbrev limit : ℕ → GridSideType → ℕ → Limit Fixed
limit id side price = record {
  order_id = id;
  price = tenths price;
  side = side;
  cum_exec_qty = ExecQty.absent;
}

-- A duplicate at 99.8, a SELL on a BUY level, and an order outside.
abbrev limits : List (Limit Fixed)
limits = limit 1 buy 998 ∷ limit 2 buy 998 ∷ limit 3 sell 996 ∷ limit 4 buy 900 ∷ []

abbrev placement_for : Direction → GridSideType → ℕ → Bool → ℕ → Intent Fixed
placement_for direction side price reduce_only grid_level = Intent.place (record {
  symbol = 7;
  side = side;
  price = tenths price;
  qty = 0;
  reduce_only = reduce_only;
  client_order_id = 8;
  grid_level = grid_level;
  direction = direction;
  order_link_id = none;
  post_only = false;
})

abbrev placement : GridSideType → ℕ → Bool → ℕ → Intent Fixed
placement = placement_for Direction.long

abbrev cancel_of : ℕ → CancelReason → ℕ → GridSideType → Intent Fixed
cancel_of id reason price side =
    Intent.cancel
      (record { symbol = 7; order_id = id; reason = reason; price = tenths price; side = side })

abbrev intents : List (Intent Fixed)
intents =
    cancel_of 2 CancelReason.duplicate 998 buy
    ∷ placement sell 1002 true 3
    ∷ cancel_of 3 CancelReason.side_mismatch 996 sell
    ∷ placement buy 996 false 0
    ∷ placement sell 1004 true 4
    ∷ cancel_of 4 CancelReason.outside_grid 900 buy
    ∷ []

placed_run : place_grid_orders engine limits Direction.long ≡ ok intents
unfolding place_grid_orders limits_by_price split_buckets select_survivor check_levels check_level
    create_place_intent sorted_grids outside_limits cancel_all_limits create grid_price_set
    survivor_at grid_side_at has_fill_history extras_at member ◌+ℤ◌ ◌-ℤ◌
placed_run = refl

place_grid_orders-AllJustified_example : AllJustified engine Direction.long intents
place_grid_orders-AllJustified_example =
    place_grid_orders-AllJustified fixed-IsOrdered engine limits Direction.long placed_run

lowest-IsTradable : IsTradable step (tenths 1000) (level buy 996)
unfolding ◌+ℤ◌ ◌-ℤ◌
lowest-IsTradable = record {
  not_wait = refl;
  below = λ _. refl;
  above = λ h. absurd (cc h);
  far = refl;
}

place_grid_orders-covers_example :
    ((kept : Limit Fixed) × (survivor_at
          (split_buckets around_100 (limits_by_price limits)).0
          (tenths 996)
        ≡ some kept)
      × (is_side kept.side buy ≡ true))
    ⊎ Has (Intent.place (create engine buy (tenths 996) 0 Direction.long false)) intents
place_grid_orders-covers_example =
    place_grid_orders-covers fixed-IsOrdered engine limits Direction.long 0 (level buy 996)
      (tenths 1000) refl refl lowest-IsTradable placed_run

distinct_prices : has_duplicates (grid_price_set engine.grid.levels) ≡ false
unfolding has_duplicates member grid_price_set
distinct_prices = refl

place_grid_orders-cancel_count_example : cancel_count 3 intents ≤ occurs 3 limits
place_grid_orders-cancel_count_example =
    place_grid_orders-cancel_count fixed-IsOrdered 3 engine limits Direction.long distinct_prices
      placed_run

abbrev tracked : List (ℕ × ℕ)
tracked = (11, 1) ∷ (12, 2) ∷ []

on_event-stamps_example :
    let after = (on_event (Event.ticker (tenths 1000) 5) none engine).1.grid in
    Told (some 5) (some []) after.changes × (after.current_exchange_ts ≡ none)
on_event-stamps_example = on_event-stamps (Event.ticker (tenths 1000) 5) none engine refl

-- A fill at 100.2 that came before the first price.
abbrev waiting : Engine Fixed
waiting = record engine {
  last_close = none;
  last_filled_price = some (tenths 1002);
  fill_pending = true;
}

abbrev first_intents : List (Intent Fixed)
first_intents =
    placement buy 998 false 0
    ∷ placement sell 1004 true 3
    ∷ placement sell 1006 true 4
    ∷ placement_for Direction.short buy 998 true 0
    ∷ placement_for Direction.short sell 1004 false 3
    ∷ placement_for Direction.short sell 1006 false 4
    ∷ []

waiting_run : (on_event (Event.ticker (tenths 1000) 5) none waiting).0 ≡ ok first_intents
unfolding on_event handle_ticker_event ticker_body ensure_grid consume_fill check_and_place bounds
    bounds_from update_grid rebuild_outside is_outside min_grid max_grid min_from max_from
    assign_sides assign_side is_too_close center_grid shift_up shift_down tally tally_from
    notify_change place_grid_orders limits_by_price split_buckets check_levels check_level
    create_place_intent sorted_grids outside_limits cancel_all_limits create grid_price_set
    survivor_at member round_price ◌+ℤ◌ ◌-ℤ◌
waiting_run = refl

on_event-clears_pending_example :
    (on_event (Event.ticker (tenths 1000) 5) none waiting).1.fill_pending ≡ false
on_event-clears_pending_example =
    on_event-clears_pending (tenths 1000) 5 none waiting refl (λ _. (tenths 1002, refl)) waiting_run
