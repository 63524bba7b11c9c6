-- ===== src/Runner/Guard.antt =====
-- What a placement has to pass in apps/gridbot/src/gridbot/runner.py: the safety caps, the refresh of
-- a doubtful position size, the test for duplicates, for the balance and for reduce-only sizes.
use grid_bot_validation.Prelude.{
  ℕ, ◌+◌, leb, ltb, ◌==◌, ◌&&◌, not, Bool, true, false, Option, none, some, List, [], ◌∷◌, ◌++◌,
  length, if◌then◌else◌,
}
use grid_bot_validation.Prelude.Int.{pos}
use grid_bot_validation.Decimal.{Decimals, zero_dec, lt, le, max_dec}
use grid_bot_validation.Backtest.{OrderSide, OrderDirection, same_side}
use grid_bot_validation.SafetyCaps.{Reason, SafetyCaps, CapDecision, allow_open, allow_reduce_only}
use grid_bot_validation.Executor.{PlaceLimitIntent, Answer}
use grid_bot_validation.Runner.{
  StrategyRunner, RunState, Outside, PositionEntry, LimitOrder, Limits, at_direction,
}
use grid_bot_validation.Runner.Orders.{same_order}

-- The reason that `_evaluate_safety_caps` gives when it does not allow an intent.
pub data CapBlock : Type 0 where
  loss_breaker : CapBlock
  capped : Reason → CapBlock

-- `sum(len(v) for v in limits.values())`
abbrev pub open_order_count : {D : Type 0} → Limits D → ℕ
open_order_count ls = length ls.long_orders + length ls.short_orders

abbrev denied : CapDecision → Option CapBlock
denied d = if d.allowed then none else some (CapBlock.capped d.reason)

abbrev pub same_reason : Reason → Reason → Bool
same_reason Reason.none_given Reason.none_given = true
same_reason Reason.max_notional Reason.max_notional = true
same_reason Reason.max_open_orders Reason.max_open_orders = true
same_reason _ _ = false

-- `_SAFETY_CAP_WARN_THROTTLE_SEC`, 60 s
abbrev pub warn_throttle : ℕ
warn_throttle = 60_000_000_000

abbrev pub is_throttled : Option ℕ → (now : ℕ) → Bool
is_throttled none now = false
is_throttled (some last) now = ltb now (last + warn_throttle)

abbrev pub is_due : Option ℕ → (interval now : ℕ) → Bool
is_due none interval now = true
is_due (some last) interval now = leb (last + interval) now

-- `close_side_map.get(intent.direction, '')`
abbrev pub close_side : OrderDirection → OrderSide
close_side OrderDirection.long = OrderSide.sell
close_side OrderDirection.short = OrderSide.buy
close_side OrderDirection.other = OrderSide.other

abbrev position_idx : OrderDirection → ℕ
position_idx OrderDirection.long = 1
position_idx _ = 2

abbrev is_idx : ℕ → Option ℕ → Bool
is_idx idx none = false
is_idx idx (some n) = n == idx

module _ {D : Type 0} where
  abbrev caps_decision :
      Option SafetyCaps → StrategyRunner D → PlaceLimitIntent D → Limits D → Option CapBlock
  caps_decision none s intent limits = none
  caps_decision (some caps) s intent limits =
      if caps.loss_tripped
      then some CapBlock.loss_breaker
      else if intent.reduce_only
      then denied (allow_reduce_only caps (open_order_count limits))
      else denied (allow_open caps s.total_position_value (open_order_count limits))

  -- `_evaluate_safety_caps`; `none` is to allow the intent
  unfoldable pub evaluate_safety_caps :
      StrategyRunner D → PlaceLimitIntent D → Limits D → Option CapBlock
  evaluate_safety_caps s intent limits = caps_decision s.executor.safety_caps s intent limits

  -- `_clear_dirty`
  unfoldable pub clear_dirty : OrderDirection → StrategyRunner D → StrategyRunner D
  clear_dirty direction s = record s {
    position_dirty = at_direction direction false s.position_dirty;
    last_dirty_rest_at = at_direction direction none s.last_dirty_rest_at;
    last_rest_position_size = at_direction direction none s.last_rest_position_size;
    dirty_ws_mismatch_streak = at_direction direction 0 s.dirty_ws_mismatch_streak;
  }

  -- `self._long_position.size if direction == LONG else self._short_position.size`
  abbrev pub position_size : OrderDirection → StrategyRunner D → D
  position_size OrderDirection.long s = s.long_size
  position_size _ s = s.short_size

  abbrev pub with_size : OrderDirection → D → StrategyRunner D → StrategyRunner D
  with_size OrderDirection.long size s = record s { long_size = size }
  with_size _ size s = record s { short_size = size }

module _ {D : Type 0} ⦃dec : Decimals D⦄ where
  -- The size of the first entry with the index: `none` where it does not parse, 0 without an entry
  unfoldable pub entry_size : ℕ → List (PositionEntry D) → Option D
  entry_size idx [] = some zero_dec
  entry_size idx (p ∷ ps) =
      let rest = entry_size idx ps in if is_idx idx p.position_idx then p.size else rest

  -- What a refresh that is not forced writes
  abbrev pub refreshed : OrderDirection → Option D → StrategyRunner D → StrategyRunner D
  refreshed direction none s = s
  refreshed direction (some size) s =
      let s' = with_size direction size s in
      record s' {
        last_rest_position_size = at_direction direction (some size) s'.last_rest_position_size;
      }

  abbrev pub sized_by : OrderDirection → Answer (List (PositionEntry D)) → Option D
  sized_by direction (Answer.raised e) = none
  sized_by direction (Answer.returned ps) = entry_size (position_idx direction) ps

  abbrev leverage_or : D → Option D → D
  leverage_or assumed none = assumed
  leverage_or assumed (some lev) = if le lev zero_dec then assumed else lev

  -- `_effective_leverage`
  abbrev effective_leverage : StrategyRunner D → OrderDirection → D
  effective_leverage s direction = leverage_or s.config.assumed_leverage (s.leverage direction)

  abbrev is_short_of : StrategyRunner D → PlaceLimitIntent D → Option D → Bool
  is_short_of s intent none = false
  is_short_of s intent (some available) =
      let one = dec.ratio (pos 1) 1 in
      let cost =
        dec.div (dec.mul intent.qty intent.price)
          (max_dec (effective_leverage s intent.direction) one) in
      lt available (dec.mul cost (dec.add one s.config.preflight_balance_buffer))

module _ {D W : Type 0} ⦃dec : Decimals D⦄ where
  abbrev pub read_size :
      Option (W → Answer (List (PositionEntry D)) × W)
      → OrderDirection
      → RunState D W
      → RunState D W
  read_size none direction st = st
  read_size (some get_positions) direction (s, w) =
      let (answer, w') = get_positions w in (refreshed direction (sized_by direction answer) s, w')

  -- `_refresh_position_size_from_rest`, not forced
  unfoldable pub refresh_position_size_from_rest :
      Outside D W → OrderDirection → RunState D W → RunState D W
  refresh_position_size_from_rest x direction (s, w) =
      let (now, w') = x.exchange.clock w in
      read_size x.get_positions direction (
        record s { last_dirty_rest_at = at_direction direction (some now) s.last_dirty_rest_at },
        w',
      )

  -- Step 3 of `_execute_place_intent`
  unfoldable pub refresh_if_dirty :
      Outside D W → PlaceLimitIntent D → (now : ℕ) → RunState D W → RunState D W
  refresh_if_dirty x intent now (s, w) =
      if (s.config.dirty_refresh_enabled && intent.reduce_only && s.position_dirty intent.direction)
        && is_due (s.last_dirty_rest_at intent.direction) s.config.dirty_rest_refresh_min_interval
            now
      then refresh_position_size_from_rest x intent.direction (s, w)
      else (s, w)

  -- `_preflight_available_balance`; an exception reads the clock for the throttle of its log line
  abbrev pub peeked : Outside D W → ℕ → Answer (Option (D × ℕ)) → W → Option D × W
  peeked x max_age (Answer.raised e) w = (none, (x.exchange.clock w).1)
  peeked x max_age (Answer.returned none) w = (none, w)
  peeked x max_age (Answer.returned (some (balance, age))) w =
      (if leb max_age age then none else some balance, w)

  abbrev pub available_from :
      Option (W → Answer (Option (D × ℕ))) → Outside D W → StrategyRunner D → W → Option D × W
  available_from (some provider) x s w = peeked x s.config.wallet_ws_max_age (provider w) w
  available_from none x s w =
      (if le s.available_balance zero_dec then none else some s.available_balance, w)

  unfoldable pub preflight_available_balance : Outside D W → StrategyRunner D → W → Option D × W
  preflight_available_balance x s w = available_from x.wallet_provider x s w

  unfoldable pub preflight_blocks_open :
      Outside D W → PlaceLimitIntent D → StrategyRunner D → W → Bool × W
  preflight_blocks_open x intent s w =
      let (available, w') = preflight_available_balance x s w in
      (is_short_of s intent available, w')

module _ {D : Type 0} ⦃dec : Decimals D⦄ where
  -- The sum of the reduce-only quantities on the closing side, with one more order
  abbrev pub add_closing : PlaceLimitIntent D → D → LimitOrder D → D
  add_closing intent sum o =
      if o.reduce_only && same_side o.side (close_side intent.direction)
      then dec.add sum o.qty
      else sum

  -- The loop of `_is_good_to_place`: an exact duplicate, and else the sum of the reduce-only quantities
  unfoldable pub scan_orders : PlaceLimitIntent D → D → List (LimitOrder D) → Option D
  scan_orders intent sum [] = some sum
  scan_orders intent sum (o ∷ os) =
      let rest = scan_orders intent (add_closing intent sum o) os in
      if same_order o intent then none else rest

  -- `position_size == 0`, and the last line
  unfoldable pub fits_position : PlaceLimitIntent D → (reduce_only_qty size : D) → Bool
  fits_position intent reduce_only_qty size =
      if dec.eq size zero_dec then false else lt (dec.add intent.qty reduce_only_qty) size

module _ {D W : Type 0} ⦃dec : Decimals D⦄ where
  abbrev pub good_after :
      Outside D W → PlaceLimitIntent D → Option D → RunState D W → Bool × RunState D W
  good_after x intent none (s, w) = (false, (s, w))
  good_after x intent (some sum) (s, w) =
      if intent.reduce_only
      then (fits_position intent sum (position_size intent.direction s), (s, w))
      else if not s.config.preflight_balance_check_enabled
      then (true, (s, w))
      else let (blocked, w') = preflight_blocks_open x intent s w in (not blocked, (s, w'))

  unfoldable pub is_good_to_place :
      Outside D W → PlaceLimitIntent D → Limits D → RunState D W → Bool × RunState D W
  is_good_to_place x intent limits st =
      good_after x intent (scan_orders intent zero_dec (limits.long_orders ++ limits.short_orders))
        st

module _ {D W : Type 0} where
  abbrev pub warned : (throttled : Bool) → (now : ℕ) → Reason → RunState D W → RunState D W
  warned true now reason st = st
  warned false now reason (s, w) = (
    record s {
      safety_cap_warn_last =
          λ r. if same_reason r reason then some now else s.safety_cap_warn_last r;
      cap_alerts = s.cap_alerts ++ reason ∷ [];
    },
    w,
  )

  -- `_emit_safety_cap_rejection`
  unfoldable pub emit_safety_cap_rejection : Outside D W → Reason → RunState D W → RunState D W
  emit_safety_cap_rejection x reason (s, w) =
      let (now, w') = x.exchange.clock w in
      warned (is_throttled (s.safety_cap_warn_last reason) now) now reason (s, w')
