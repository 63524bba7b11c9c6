-- ===== src/Position/Tests.antt =====
-- Concrete runs of the risk rules, and the theorems at inputs that meet their hypotheses.
use grid_bot_validation.Prelude.{◌≡◌, refl, true, false, none, some}
use grid_bot_validation.Prelude.Int.{◌-ℤ◌, ◌+ℤ◌}
use grid_bot_validation.Float.{int, lit}
use grid_bot_validation.Float.Fixed.{Fixed, fixed_floats}
use grid_bot_validation.Samples.{tenths}
use grid_bot_validation.Outcome.{ok}
use grid_bot_validation.Position.{
  DirectionType, PositionState, RiskConfig, Position, set_amount_multiplier, set_this, set_other,
  reset_amount_multiplier, calculate_amount_multiplier, adjust, apply_rules,
  apply_long_position_rules, apply_short_position_rules, create_linked_pair,
}
use grid_bot_validation.Position.Cycle.{
  Book, update_multipliers, reset_both, calculate_long, calculate_short,
}
use grid_bot_validation.Position.Cycle.Range.{
  BothListed, IsUnslowed, update_multipliers-BothListed, update_multipliers-closes,
}
use grid_bot_validation.Position.Cycle.Emergency.{IsOpen, update_multipliers-long_emergency}

abbrev config : RiskConfig Fixed
config = record {
  min_liq_ratio = lit 8 10;
  max_liq_ratio = lit 12 10;
  max_margin = int 5;
  min_total_margin = int 1;
  increase_same_position_on_low_margin = true;
}

abbrev fresh : DirectionType → Position Fixed
fresh d = record {
  direction = d;
  risk_config = config;
  amount_multiplier = record { buy_mult = int 1; sell_mult = int 1 };
  position_ratio = int 1;
  size = int 0;
  liquidation_price = int 0;
}

abbrev book : Book Fixed
book = record {
  long_position = fresh DirectionType.long;
  short_position = fresh DirectionType.short;
}

-- At 100 the long position is at high risk, and the short one at moderate risk.
abbrev long_state : PositionState Fixed
long_state = record {
  entry_price = some (tenths 1050);
  margin = int 2;
  liquidation_price = tenths 900;
  leverage = 10;
}

abbrev short_state : PositionState Fixed
short_state = record {
  entry_price = some (tenths 980);
  margin = int 2;
  liquidation_price = tenths 1150;
  leverage = 10;
}

linked_run : create_linked_pair config none ≡ (fresh DirectionType.long, fresh DirectionType.short)
unfolding create_linked_pair
linked_run = refl

emergency_run :
    let b' = (update_multipliers (some long_state) (some short_state) (tenths 1000) false book).1 in
    b'.long_position.amount_multiplier ≡ record { buy_mult = int 1; sell_mult = lit 5 10 }
unfolding update_multipliers reset_both calculate_long calculate_short calculate_amount_multiplier
    adjust apply_rules apply_long_position_rules apply_short_position_rules set_this set_other
    set_amount_multiplier reset_amount_multiplier ◌-ℤ◌ ◌+ℤ◌
emergency_run = refl

long-IsOpen : IsOpen long_state
long-IsOpen = record { entry = tenths 1050; known = refl; priced = refl }

update_multipliers-long_emergency_example :
    let b' = (update_multipliers (some long_state) (some short_state) (tenths 1000) false book).1 in
    b'.long_position.amount_multiplier.sell_mult ≡ lit 5 10
update_multipliers-long_emergency_example =
    update_multipliers-long_emergency long_state (some short_state) (tenths 1000) false book
      long-IsOpen refl refl refl

update_multipliers-BothListed_example :
    let (r, b') =
      update_multipliers (some long_state) (some short_state) (tenths 1000) false book in
    (r ≡ ok tt) × BothListed b'.long_position × BothListed b'.short_position
update_multipliers-BothListed_example =
    update_multipliers-BothListed false (some long_state) (some short_state) (tenths 1000) book refl
      refl

update_multipliers-closes_example :
    let b' = (update_multipliers (some long_state) (some short_state) (tenths 1000) true book).1 in
    IsUnslowed b'.long_position.amount_multiplier.sell_mult
    × IsUnslowed b'.short_position.amount_multiplier.buy_mult
update_multipliers-closes_example =
    update_multipliers-closes (some long_state) (some short_state) (tenths 1000) book refl refl refl
      refl
