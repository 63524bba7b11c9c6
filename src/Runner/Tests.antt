-- ===== src/Runner/Tests.antt =====
-- Concrete runs of the strategy runner, and the theorems at inputs that meet their hypotheses.
use grid_bot_validation.Prelude.{
  ℕ, ◌+◌, ◌≡◌, refl, true, false, none, some, List, [], ◌∷◌, ◌⊎◌, arith,
}
use grid_bot_validation.Prelude.Int.{ℤ, pos, ltb_ℤ, ◌+ℤ◌}
use grid_bot_validation.Text.{Text, same_text}
use grid_bot_validation.Dict.{contains}
use grid_bot_validation.Decimal.{Decimals}
use grid_bot_validation.Decimal.Fixed.{FixedDec, fixed_decimals, fixed_dec-IsOrdered}
use grid_bot_validation.Decimal.Whole.{whole_decimals}
use grid_bot_validation.Backtest.{OrderSide, OrderDirection}
use grid_bot_validation.TruncateBreaker.{breaker, blocked_until}
use grid_bot_validation.Executor.{PlaceLimitIntent, Answer}
use grid_bot_validation.Executor.Samples.{executor, refusing}
use grid_bot_validation.Runner.{GeneratedIntent, StrategyRunner, Outside, RunState}
use grid_bot_validation.Runner.Orders.{get_limit_orders}
use grid_bot_validation.Runner.Guard.{
  evaluate_safety_caps, refresh_if_dirty, is_good_to_place, scan_orders, fits_position,
}
use grid_bot_validation.Runner.Admit.{admit}
use grid_bot_validation.Runner.Place.{execute_place_intent}
use grid_bot_validation.Runner.Batch.{execute_generated_intents, limits_of}
use grid_bot_validation.Runner.Executions.{
  processed, fresh_in, processed-fresh_in, last_of, seen_exec_id, evict_oldest,
}
use grid_bot_validation.Runner.Distinct.{IsDistinct}
use grid_bot_validation.Runner.Distinct.Run.{execute_generated_intents-IsDistinct}
use grid_bot_validation.Runner.Retries.{AllRetriable, execute_generated_intents-AllRetriable}
use grid_bot_validation.Runner.Latch.{Demand, run, heal, with_placing, latched-placing}
use grid_bot_validation.Runner.Closing.{IsAdditive, closing_total}
use grid_bot_validation.Runner.Closing.Placed.{execute_place_intent-closing}

module _ {D : Type 0} ⦃dec : Decimals D⦄ where
  abbrev amount : ℕ → D
  amount n = dec.ratio (pos n) 1

  abbrev runner : StrategyRunner D
  runner = record {
    config = record {
      dirty_refresh_enabled = true;
      dirty_rest_refresh_min_interval = 5;
      preflight_balance_check_enabled = false;
      preflight_balance_buffer = amount 0;
      assumed_leverage = amount 10;
      divergence_detector_enabled = false;
      divergence_failure_mix_window = 100;
      divergence_failure_mix_threshold = 3;
      truncate_breaker_reconcile = true;
      wallet_ws_max_age = 10;
    };
    tracked_orders = [];
    executor = executor;
    truncate_breaker = breaker (record { max_consecutive = 3; window = 100; cooldown = 50 });
    truncate_breaker_reconcile_count = 0;
    long_size = amount 10;
    short_size = amount 0;
    total_position_value = pos 0;
    available_balance = amount 100;
    leverage = λ d. none;
    position_dirty = λ d. false;
    last_dirty_rest_at = λ d. none;
    last_rest_position_size = λ d. none;
    dirty_ws_mismatch_streak = λ d. 0;
    same_order_error = false;
    placement_failure_window = [];
    safety_cap_warn_last = λ r. none;
    failed_intents = [];
    failure_mixes = [];
    tripped_directions = [];
    drained_prefixes = [];
    cap_alerts = [];
  }

  -- A reduce-only order of the long position
  abbrev closing_order : (qty : ℕ) → PlaceLimitIntent D
  closing_order qty = record {
    symbol = 88 ∷ [];
    side = OrderSide.sell;
    price = amount 100;
    qty = amount qty;
    direction = OrderDirection.long;
    reduce_only = true;
    client_order_id = qty ∷ [];
    order_link_id = none;
    post_only = false;
  }

  -- An exchange that takes every order; the world is the time.
  abbrev desk : Outside D ℕ
  desk = record {
    exchange = record {
      now_utc_ms = λ w. (1_780_000_000_000, w);
      clock = λ w. (w, w + 1);
      place_order = λ r w. (Answer.returned (some (79 ∷ [])), w);
      cancel_order = λ c w. (Answer.returned true, w);
    };
    resolve_qty = λ s i. i.qty;
    get_positions = none;
    wallet_provider = none;
  }

abbrev start : RunState FixedDec ℕ
start = (runner, 0)

abbrev whole_start : RunState ℤ ℕ
whole_start = (runner, 0)

abbrev latched : RunState FixedDec ℕ
latched = (record runner { same_order_error = true }, 0)

abbrev intents : List (GeneratedIntent FixedDec)
intents =
    GeneratedIntent.place (closing_order 6)
    ∷ GeneratedIntent.place (closing_order 6)
    ∷ GeneratedIntent.place (closing_order 3)
    ∷ GeneratedIntent.cancel true (record { symbol = 88 ∷ []; order_id = 79 ∷ [] })
    ∷ []

runner-IsDistinct : IsDistinct start.0.tracked_orders
unfolding IsDistinct
runner-IsDistinct = tt

execute_generated_intents-IsDistinct_example :
    IsDistinct (execute_generated_intents desk intents (limits_of start) start).1.0.tracked_orders
execute_generated_intents-IsDistinct_example =
    execute_generated_intents-IsDistinct fixed_dec-IsOrdered desk intents start runner-IsDistinct

abbrev refusing_desk : Outside FixedDec ℕ
refusing_desk = record desk { exchange = refusing }

runner-AllRetriable : AllRetriable refusing_desk start.0.failed_intents
unfolding AllRetriable
runner-AllRetriable = tt

execute_generated_intents-AllRetriable_example :
    AllRetriable refusing_desk
      (execute_generated_intents refusing_desk intents (limits_of start) start).1.0.failed_intents
execute_generated_intents-AllRetriable_example =
    execute_generated_intents-AllRetriable refusing_desk intents start runner-AllRetriable

-- Two cancels, of which one is of a duplicate, between a placement and a retry.
abbrev demands : List (Demand FixedDec)
demands =
    Demand.batch
      (GeneratedIntent.cancel false (record { symbol = 88 ∷ []; order_id = 78 ∷ [] }) ∷ intents)
    ∷ Demand.retry (closing_order 6)
    ∷ []

latched-placing_example :
    (run (with_placing refusing.place_order desk) demands latched ≡ heal desk demands latched)
    × ((heal desk demands latched).0.same_order_error ≡ true)
latched-placing_example = latched-placing desk refusing.place_order demands latched refl

whole-IsAdditive : IsAdditive whole_decimals (λ z. z)
whole-IsAdditive = record { value_zero = refl; value_add = λ x y. refl; value_lt = λ x y h. h }

admitted :
    admit desk (closing_order 6) (limits_of whole_start) whole_start
    ≡ (some (closing_order {D = ℤ} 6, 0), (runner, 1))
unfolding admit blocked_until evaluate_safety_caps refresh_if_dirty is_good_to_place scan_orders
    fits_position get_limit_orders ◌+ℤ◌
admitted = refl

execute_place_intent-closing_example :
    let after =
      (execute_place_intent desk
        (closing_order {D = ℤ} 6)
        (limits_of whole_start)
        whole_start).1.0 in
    (closing_total (λ z. z) OrderDirection.long after.tracked_orders
      ≡ closing_total (λ z. z) OrderDirection.long whole_start.0.tracked_orders)
    ⊎ (ltb_ℤ (closing_total (λ z. z) OrderDirection.long after.tracked_orders) (pos 10) ≡ true)
execute_place_intent-closing_example =
    execute_place_intent-closing (λ z. z) whole-IsAdditive desk (closing_order 6) (closing_order 6)
      0 whole_start (runner, 1) admitted

-- Three ids, and a store of two: "a" comes again while it is known, and when it is forgotten.
abbrev ids : List Text
ids = (97 ∷ []) ∷ (98 ∷ []) ∷ (97 ∷ []) ∷ (99 ∷ []) ∷ (97 ∷ []) ∷ []

processed_run : processed 2 ids [] ≡ (97 ∷ []) ∷ (98 ∷ []) ∷ (99 ∷ []) ∷ (97 ∷ []) ∷ []
unfolding processed seen_exec_id evict_oldest contains same_text
processed_run = refl

processed-fresh_in_example : processed 2 ids (last_of 2 []) ≡ fresh_in 2 ids []
processed-fresh_in_example = processed-fresh_in 2 ids [] (omega arith)
