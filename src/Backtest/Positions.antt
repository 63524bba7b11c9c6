-- ===== src/Backtest/Positions.antt =====
-- The position of a backtest: apps/backtest/src/backtest/position_tracker.py. Warnings are left out.
pub mod Ledger
mod Tests
use grid_bot_validation.Prelude.{ℕ, ◌||◌, Bool, true, false, Option, none, some, if◌then◌else◌}
use grid_bot_validation.Prelude.Int.{pos}
use grid_bot_validation.Text.{Text}
use grid_bot_validation.Outcome.{Error, Action, Result, ok, err, ◌>>◌, ◌>>=◌, pure, modify}
use grid_bot_validation.Decimal.{Decimals, zero_dec, lt, le, min_dec}
use grid_bot_validation.Engine.Types.{Direction}
use grid_bot_validation.Backtest.{OrderSide, OrderDirection}
use grid_bot_validation.Pnl.{
  MmTiers, calc_unrealised_pnl, calc_unrealised_pnl_pct, calc_position_value, calc_initial_margin,
  calc_maintenance_margin,
}

pub record PositionState (D : Type 0) : Type 0 where
  pub size : D
  pub avg_entry_price : D
  pub realized_pnl : D
  pub unrealized_pnl : D
  pub unrealized_pnl_percent : D
  pub commission_paid : D
  pub funding_paid : D
  pub position_value : D
  pub initial_margin : D
  pub imr_rate : D
  pub maintenance_margin : D
  pub mmr_rate : D
  pub liquidation_price : D
  pub cum_realised_pnl : D
  pub cur_realised_pnl : D

pub record BacktestPositionTracker (D : Type 0) : Type 0 where
  pub direction : Direction
  pub commission_rate : D
  pub leverage : D
  pub tiers : Option (MmTiers D)
  pub symbol : Text
  pub state : PositionState D

-- `PositionStateSeed`; a seed may lack its last two attributes.
pub record PositionStateSeed (D : Type 0) : Type 0 where
  pub size : D
  pub entry_price : D
  pub liquidation_price : D
  pub cum_realised_pnl : Option D
  pub cur_realised_pnl : Option D

-- The arguments of `process_fill`
pub record Fill (D : Type 0) : Type 0 where
  pub side : OrderSide
  pub qty : D
  pub price : D

-- `DirectionType(direction)`
abbrev direction_type : OrderDirection → Result Direction
direction_type OrderDirection.long = ok Direction.long
direction_type OrderDirection.short = ok Direction.short
direction_type OrderDirection.other = err Error.invalid_direction

abbrev or_default : {D : Type 0} → D → Option D → D
or_default d none = d
or_default d (some x) = x

-- `_is_opening_fill`
unfoldable pub is_opening_fill : Direction → OrderSide → Bool
is_opening_fill Direction.long OrderSide.buy = true
is_opening_fill Direction.short OrderSide.sell = true
is_opening_fill _ _ = false

module _ {D : Type 0} ⦃dec : Decimals D⦄ where
  -- `PositionState()`
  abbrev pub position_state : PositionState D
  position_state = record {
    size = zero_dec;
    avg_entry_price = zero_dec;
    realized_pnl = zero_dec;
    unrealized_pnl = zero_dec;
    unrealized_pnl_percent = zero_dec;
    commission_paid = zero_dec;
    funding_paid = zero_dec;
    position_value = zero_dec;
    initial_margin = zero_dec;
    imr_rate = zero_dec;
    maintenance_margin = zero_dec;
    mmr_rate = zero_dec;
    liquidation_price = zero_dec;
    cum_realised_pnl = zero_dec;
    cur_realised_pnl = zero_dec;
  }

  -- `__init__` after the direction
  abbrev checked_tracker :
      (commission_rate leverage : D)
      → Option (MmTiers D)
      → Text
      → Result Direction
      → Result (BacktestPositionTracker D)
  checked_tracker commission_rate leverage tiers symbol (err e) = err e
  checked_tracker commission_rate leverage tiers symbol (ok direction) =
      if lt commission_rate zero_dec || lt (dec.ratio (pos 1) 100) commission_rate
      then err Error.invalid_commission
      else ok (record {
        direction = direction;
        commission_rate = commission_rate;
        leverage = leverage;
        tiers = tiers;
        symbol = symbol;
        state = position_state;
      })

  -- `__init__`
  unfoldable pub position_tracker :
      OrderDirection
      → (commission_rate leverage : D) → Option (MmTiers D)
      → Text
      → Result (BacktestPositionTracker D)
  position_tracker direction commission_rate leverage tiers symbol =
      checked_tracker commission_rate leverage tiers symbol (direction_type direction)

  unfoldable pub seed_state : PositionStateSeed D → PositionState D → PositionState D
  seed_state seed s = record s {
    size = seed.size;
    avg_entry_price = seed.entry_price;
    liquidation_price = seed.liquidation_price;
    realized_pnl = zero_dec;
    commission_paid = zero_dec;
    funding_paid = zero_dec;
    cum_realised_pnl = or_default zero_dec seed.cum_realised_pnl;
    cur_realised_pnl = or_default zero_dec seed.cur_realised_pnl;
  }

  -- `_add_to_position`, which returns 0
  unfoldable pub add_to_position : (qty price : D) → PositionState D → D × PositionState D
  add_to_position qty price s =
      let size = dec.add s.size qty in
      let value = dec.add (dec.mul s.size s.avg_entry_price) (dec.mul qty price) in
      (
        zero_dec,
        record s {
          size = size;
          avg_entry_price = if lt zero_dec size then dec.div value size else zero_dec;
        },
      )

  -- `_reduce_position`
  unfoldable pub reduce_position :
      Direction → (qty price : D) → PositionState D → D × PositionState D
  reduce_position direction qty price s =
      if dec.eq s.size zero_dec
      then (zero_dec, s)
      else let close_qty = min_dec qty s.size in
        let realized = calc_unrealised_pnl direction s.avg_entry_price price close_qty in
        let size = dec.sub s.size close_qty in
        (
          realized,
          record s {
            realized_pnl = dec.add s.realized_pnl realized;
            size = size;
            avg_entry_price = if dec.eq size zero_dec then zero_dec else s.avg_entry_price;
          },
        )

  -- The commission, and the reset of the cycle's total at an opening fill of an empty position
  unfoldable pub charge : (is_opening : Bool) → (commission : D) → PositionState D → PositionState D
  charge is_opening commission s = record s {
    commission_paid = dec.add s.commission_paid commission;
    cur_realised_pnl =
        if is_opening
        then (if dec.eq s.size zero_dec then zero_dec else s.cur_realised_pnl)
        else s.cur_realised_pnl;
  }

  abbrev pub settle : D × PositionState D → PositionState D
  settle (realized, s) = record s {
    cum_realised_pnl = dec.add s.cum_realised_pnl realized;
    cur_realised_pnl = dec.add s.cur_realised_pnl realized;
  }

  unfoldable pub fill_position :
      (is_opening : Bool) → Direction → Fill D → PositionState D → D × PositionState D
  fill_position true direction f s = add_to_position f.qty f.price s
  fill_position false direction f s = reduce_position direction f.qty f.price s

  unfoldable pub process_fill : Fill D → Action (BacktestPositionTracker D) D
  process_fill f t =
      if le f.price zero_dec || le f.qty zero_dec
      then (err Error.invalid_fill, t)
      else let is_opening = is_opening_fill t.direction f.side in
        let commission = dec.mul (dec.mul f.qty f.price) t.commission_rate in
        let filled =
          fill_position is_opening t.direction f (charge is_opening commission t.state) in
        (ok filled.0, record t { state = settle filled })

  -- `_reset_margin`
  unfoldable pub reset_margin : PositionState D → PositionState D
  reset_margin s = record s {
    position_value = zero_dec;
    initial_margin = zero_dec;
    imr_rate = zero_dec;
    maintenance_margin = zero_dec;
    mmr_rate = zero_dec;
  }

  -- A value that is written, or an exception in place of it
  abbrev write :
      (D × D → PositionState D → PositionState D)
      → Result (D × D)
      → Action (BacktestPositionTracker D) (Unit {0})
  write put (ok v) t = (ok tt, record t { state = put v t.state })
  write put (err e) t = (err e, t)

  -- `_update_margin`: what is written before an exception stays written.
  unfoldable pub update_margin : Action (BacktestPositionTracker D) (Unit {0})
  update_margin t =
      let value = calc_position_value t.state.size t.state.avg_entry_price in
      (modify (λ t'. record t' { state = record t'.state { position_value = value } })
          >> write (λ v s. record s { initial_margin = v.0; imr_rate = v.1 })
              (calc_initial_margin value t.leverage t.symbol t.tiers)
          >> write (λ v s. record s { maintenance_margin = v.0; mmr_rate = v.1 })
              (calc_maintenance_margin value t.symbol t.tiers))
        t

  unfoldable pub calculate_unrealized_pnl :
      (current_price : D) → Action (BacktestPositionTracker D) D
  calculate_unrealized_pnl current_price t =
      if dec.eq t.state.size zero_dec
      then (
        ok zero_dec,
        record t { state = reset_margin (record t.state { unrealized_pnl = zero_dec }) },
      )
      else let unrealized =
          calc_unrealised_pnl t.direction t.state.avg_entry_price current_price t.state.size in
        (update_margin >> pure unrealized)
          (record t { state = record t.state { unrealized_pnl = unrealized } })

  unfoldable pub calculate_unrealized_pnl_percent :
      (current_price leverage : D) → BacktestPositionTracker D → D × BacktestPositionTracker D
  calculate_unrealized_pnl_percent current_price leverage t =
      let percent =
        if dec.eq t.state.size zero_dec
          || dec.eq current_price zero_dec
          || dec.eq t.state.avg_entry_price zero_dec
        then zero_dec
        else calc_unrealised_pnl_pct t.direction t.state.avg_entry_price current_price leverage in
      (percent, record t { state = record t.state { unrealized_pnl_percent = percent } })

  -- A payment, `-funding` of a long position
  abbrev payment : Direction → (funding : D) → D
  payment Direction.long funding = dec.sub zero_dec funding
  payment Direction.short funding = funding

  unfoldable pub apply_funding :
      (rate current_price : D) → BacktestPositionTracker D → D × BacktestPositionTracker D
  apply_funding rate current_price t =
      if dec.eq t.state.size zero_dec
      then (zero_dec, t)
      else let paid = payment t.direction (dec.mul (dec.mul t.state.size current_price) rate) in
        (
          paid,
          record t { state = record t.state { funding_paid = dec.sub t.state.funding_paid paid } },
        )

  unfoldable pub get_total_pnl : PositionState D → D
  get_total_pnl s =
      dec.sub (dec.sub (dec.add s.realized_pnl s.unrealized_pnl) s.commission_paid) s.funding_paid

  abbrev pub has_position : PositionState D → Bool
  has_position s = lt zero_dec s.size
