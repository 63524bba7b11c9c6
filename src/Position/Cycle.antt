-- ===== src/Position/Cycle.antt =====
-- The update of all four multipliers, long first: `StrategyRunner.on_position_update` of
-- apps/gridbot/src/gridbot/runner.py.
pub mod Fit
pub mod FitBook
pub mod Range
pub mod Emergency
use grid_bot_validation.Prelude.{Bool, Option, none, some}
use grid_bot_validation.Float.{Floats, int}
use grid_bot_validation.Outcome.{Result, ok, err, Action, ◌>>=◌, ◌>>◌, pure, modify}
use grid_bot_validation.Position.{
  PositionState, Position, Linked, reset_amount_multiplier, calculate_amount_multiplier,
}

-- The two objects `_long_position` and `_short_position`, each linked to the other.
pub record Book (F : Type 0) : Type 0 where
  pub long_position : Position F
  pub short_position : Position F

module _ {F : Type 0} where
  abbrev pub other_or : Position F → Option (Position F) → Position F
  other_or p none = p
  other_or p (some q) = q

  -- A call of a method of the long position, and of the short one.
  abbrev pub on_long : {A : Type 0} → Action (Linked F) A → Action (Book F) A
  on_long m b =
      let (r, p) = m (record { this = b.long_position; opposite = some b.short_position }) in
      (r, record { long_position = p.this; short_position = other_or b.short_position p.opposite })

  abbrev pub on_short : {A : Type 0} → Action (Linked F) A → Action (Book F) A
  on_short m b =
      let (r, p) = m (record { this = b.short_position; opposite = some b.long_position }) in
      (r, record { long_position = other_or b.long_position p.opposite; short_position = p.this })

module _ {F : Type 0} ⦃fl : Floats F⦄ where
  -- `long_state or PositionState(direction=...)`
  abbrev pub or_flat : Option (PositionState F) → PositionState F
  or_flat (some s) = s
  or_flat none = record {
    entry_price = none;
    margin = int 0;
    liquidation_price = int 0;
    leverage = 1;
  }

  unfoldable pub reset_both : Book F → Book F
  reset_both b = record {
    long_position = reset_amount_multiplier b.long_position;
    short_position = reset_amount_multiplier b.short_position;
  }

  unfoldable pub calculate_long :
      (long_state short_state : Option (PositionState F))
      → (price : F) → (low_balance : Bool) → Action (Book F) (Unit {0})
  calculate_long none short_state price low_balance = pure tt
  calculate_long (some s) short_state price low_balance = do
    on_long (calculate_amount_multiplier s (or_flat short_state) price low_balance)
    pure tt

  unfoldable pub calculate_short :
      (long_state short_state : Option (PositionState F))
      → (price : F) → (low_balance : Bool) → Action (Book F) (Unit {0})
  calculate_short long_state none price low_balance = pure tt
  calculate_short long_state (some s) price low_balance = do
    on_short (calculate_amount_multiplier s (or_flat long_state) price low_balance)
    pure tt

  unfoldable pub update_multipliers :
      (long_state short_state : Option (PositionState F))
      → (price : F) → (low_balance : Bool) → Action (Book F) (Unit {0})
  update_multipliers long_state short_state price low_balance = do
    modify reset_both
    calculate_long long_state short_state price low_balance
    calculate_short long_state short_state price low_balance
