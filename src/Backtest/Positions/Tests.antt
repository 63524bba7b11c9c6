-- ===== src/Backtest/Positions/Tests.antt =====
-- Concrete runs of a position, and the theorem at inputs that meet its hypotheses.
use grid_bot_validation.Prelude.{◌≡◌, refl, true, none, List, [], ◌∷◌, arith}
use grid_bot_validation.Prelude.Int.{ℤ, pos, negsuc, eq_of_parts, ◌+ℤ◌, ◌-ℤ◌, ◌*ℤ◌}
use grid_bot_validation.Outcome.{Error, err}
use grid_bot_validation.Decimal.Whole.{whole_decimals, sub_mul, mul_comm, mul_zero}
use grid_bot_validation.Engine.Types.{Direction}
use grid_bot_validation.Pnl.{calc_unrealised_pnl}
use grid_bot_validation.Backtest.{OrderSide}
use grid_bot_validation.Backtest.Positions.{
  BacktestPositionTracker, Fill, position_state, process_fill, charge, fill_position,
  is_opening_fill, add_to_position, reduce_position,
}
use grid_bot_validation.Backtest.Positions.Ledger.{
  IsExact, signed, book, cash, rounded, after_fills, realized-books,
}

abbrev flat_long : BacktestPositionTracker ℤ
flat_long = record {
  direction = Direction.long;
  commission_rate = pos 0;
  leverage = pos 10;
  tiers = none;
  symbol = [];
  state = position_state;
}

-- Ten at 100 and ten at 111, so 105 on average, rounded down; then five out at 120, and more than the
-- rest at 90.
abbrev round_trip : List (Fill ℤ)
round_trip =
    record { side = OrderSide.buy; qty = pos 10; price = pos 100 }
    ∷ record { side = OrderSide.buy; qty = pos 10; price = pos 111 }
    ∷ record { side = OrderSide.sell; qty = pos 5; price = pos 120 }
    ∷ record { side = OrderSide.sell; qty = pos 30; price = pos 90 }
    ∷ []

round_trip_run :
    let s = (after_fills round_trip flat_long).state in
    (s.size ≡ pos 0)
    × (s.avg_entry_price ≡ pos 0)
    × (s.realized_pnl ≡ negsuc 149)
    × (s.cum_realised_pnl ≡ negsuc 149)
    × (s.cur_realised_pnl ≡ negsuc 149)
unfolding after_fills process_fill charge fill_position is_opening_fill add_to_position
    reduce_position calc_unrealised_pnl ◌+ℤ◌ ◌-ℤ◌ ◌*ℤ◌
round_trip_run = (refl, refl, refl, refl, refl)

books_run :
    (cash (λ z. z) round_trip flat_long ≡ negsuc 159)
    × (rounded (λ z. z) round_trip flat_long ≡ negsuc 9)
unfolding cash rounded process_fill charge fill_position is_opening_fill add_to_position
    reduce_position calc_unrealised_pnl ◌+ℤ◌ ◌-ℤ◌ ◌*ℤ◌
books_run = (refl, refl)

invalid_run :
    process_fill (record { side = OrderSide.buy; qty = pos 0; price = pos 100 }) flat_long
    ≡ (err Error.invalid_fill, flat_long)
unfolding process_fill
invalid_run = refl

same_zero : (x : ℤ) → whole_decimals.eq x (pos 0) ≡ true → x ≡ pos 0
same_zero x h = ground (arith, eq_of_parts x (pos 0))

whole-IsExact : IsExact whole_decimals (λ z. z)
whole-IsExact = record {
  value_add = λ x y. refl;
  value_sub = λ x y. refl;
  value_mul_comm = mul_comm;
  value_sub_mul = sub_mul;
  value_mul_zero = mul_zero;
  eq_zero = same_zero;
}

realized-books_example :
    let value = λ (z : ℤ). z in
    let t = flat_long in
    let t' = after_fills round_trip t in
    t'.state.realized_pnl
    ≡ (t.state.realized_pnl
        +ℤ signed t.direction
            ((book value t'.state -ℤ book value t.state) -ℤ rounded value round_trip t))
      +ℤ cash value round_trip t
realized-books_example = realized-books (λ z. z) whole-IsExact round_trip flat_long
