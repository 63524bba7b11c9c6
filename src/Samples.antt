-- ===== src/Samples.antt =====
-- Concrete grids for the runs: tick size 0.1, grid step 0.2 %, in fixed-point numbers of six
-- decimals.
use grid_bot_validation.Prelude.{ℕ, ◌*◌, none, some, List, [], ◌∷◌}
use grid_bot_validation.Prelude.Int.{pos}
use grid_bot_validation.Float.Fixed.{Fixed}
use grid_bot_validation.Grid.Level.{GridSideType, buy, sell, wait, Level, Grid}

-- A number of tenths.
abbrev pub tenths : ℕ → Fixed
tenths n = some (pos (n * 100_000))

abbrev pub step : Fixed
step = some (pos 200_000)

abbrev pub empty : Grid Fixed
empty = record {
  levels = [];
  tick_size = tenths 1;
  grid_count = 4;
  grid_step = step;
  rebalance_threshold = some (pos 300_000);
  original_anchor_price = none;
  changes = some [];
  current_exchange_ts = none;
}

abbrev pub level : GridSideType → ℕ → Level Fixed
level s n = record { side = s; price = tenths n }

-- Around 100.0: two BUY levels, the WAIT level and two SELL levels.
abbrev pub around_100 : List (Level Fixed)
around_100 =
    level buy 996 ∷ level buy 998 ∷ level wait 1000 ∷ level sell 1002 ∷ level sell 1004 ∷ []
