-- ===== src/Grid/Tests.antt =====
-- Concrete grids: tick size 0.1, grid step 0.2 %, in fixed-point numbers of six decimals.
pub mod Rounding
use grid_bot_validation.Prelude.{
  ℕ, ◌*◌, ◌↔◌, ◌⊎◌, ◌≤◌, ◌≡◌, refl, Bool, true, false, Option, none, some, List, [], ◌∷◌, ◌++◌, map,
  arith, length,
}
use grid_bot_validation.Prelude.Int.{pos, negsuc, ◌+ℤ◌, ◌-ℤ◌}
use grid_bot_validation.Float.Fixed.{Fixed, fixed_floats, fixed-IsOrdered}
use grid_bot_validation.Grid.Level.{
  GridSideType, buy, sell, wait, Level, Grid, notify_change, prices, sides,
}
use Rounding.{fixed-IsMonotone}
use grid_bot_validation.Samples.{tenths, step, empty, level, around_100}
use grid_bot_validation.Outcome.{Error, ok, err}
use grid_bot_validation.Grid.Build.Shape.{length-built_levels}
use grid_bot_validation.Grid.Build.Sorted.{build_grid_correct}
use grid_bot_validation.Grid.Check.{
  is_grid_correct, is_price_sorted, scan, sorted_from, bounds, bounds_from, min_grid, max_grid,
  min_from, max_from, wait_center, center_of, wait_prices,
}
use grid_bot_validation.Grid.Check.Pattern.{Above, IsAscending, Zones, is_grid_correct_iff}
use grid_bot_validation.Grid.Check.Bounds.{Among, NoneBelow, NoneAbove, bounds-min-max}
use grid_bot_validation.Grid.Check.Restore.{
  SavedLevel, SavedPrice, restore_grid, Restored, restore_grid-outcome, parse_levels,
}
use grid_bot_validation.Grid.Update.{
  update_grid, is_outside, assign_side, assign_sides, is_too_close, center_grid, shift_up, tally,
  tally_from, pop_first, rebuild_outside,
}
use grid_bot_validation.Grid.Update.Assign.{AllOnSide, BuysFirst, assign_sides-BuysFirst}
use grid_bot_validation.Grid.Update.Center.{Kept, count, exceeds, center_grid-length}
use grid_bot_validation.Grid.Update.Apply.{update_grid-inside}
use grid_bot_validation.Grid.Build.{
  rebuild_grid, build_grid, built_levels, upper_levels, lower_levels, round_price, has_duplicates,
  member,
}

bounds-min-max_example :
    ((lo : Fixed) × (hi : Fixed) × (bounds around_100 ≡ ok (lo, hi))
      × (min_grid around_100 ≡ ok lo)
      × (max_grid around_100 ≡ ok hi)
      × Among lo (prices around_100)
      × Among hi (prices around_100)
      × NoneBelow lo (prices around_100)
      × NoneAbove hi (prices around_100))
    ⊎ ((around_100 ≡ [])
        × (bounds around_100 ≡ err Error.empty_grid)
        × (min_grid around_100 ≡ err Error.empty_grid)
        × (max_grid around_100 ≡ err Error.empty_grid))
bounds-min-max_example = bounds-min-max fixed-IsOrdered around_100

is_grid_correct_iff_example : (is_grid_correct around_100 ≡ true) ↔ (
    Above fixed_floats none (prices around_100)
    × IsAscending fixed_floats (prices around_100)
    × Zones (sides around_100))
is_grid_correct_iff_example = is_grid_correct_iff fixed-IsOrdered around_100

built_ok : (build_grid (tenths 1000) empty).0 ≡ ok tt
unfolding build_grid has_duplicates member built_levels upper_levels lower_levels round_price ◌+ℤ◌
    ◌-ℤ◌
built_ok = refl

build_grid_correct_example : is_grid_correct (build_grid (tenths 1000) empty).1.levels ≡ true
unfolding ◌+ℤ◌ ◌-ℤ◌
build_grid_correct_example =
    build_grid_correct fixed-IsOrdered empty fixed-IsMonotone (tenths 1000) (omega arith) refl
      built_ok

-- The levels as a saved list of dicts, and one whose last price no float reaches.
abbrev saved_dict : Level Fixed → SavedLevel Fixed
saved_dict l = record { side = some l.side; price = SavedPrice.number l.price }

abbrev saved : List (SavedLevel Fixed)
saved = map saved_dict around_100

abbrev saved_huge : List (SavedLevel Fixed)
saved_huge = saved ++ record { side = some buy; price = SavedPrice.overflow } ∷ []

restored_run : (restore_grid saved empty).1.levels ≡ around_100
unfolding restore_grid parse_levels is_grid_correct wait_center ◌+ℤ◌
restored_run = refl

huge_run : restore_grid saved_huge empty ≡ (err Error.float_overflow, empty)
unfolding restore_grid parse_levels
huge_run = refl

restore_grid-outcome_example :
    Restored saved_huge empty (restore_grid saved_huge empty)
    × ((restore_grid saved_huge empty).1.changes ≡ some [])
restore_grid-outcome_example = restore_grid-outcome saved_huge empty

around_100-IsAscending : IsAscending fixed_floats (prices around_100)
around_100-IsAscending = (
  (refl, (refl, (refl, (refl, tt)))),
  ((refl, (refl, (refl, tt))), ((refl, (refl, tt)), ((refl, tt), (tt, tt)))),
)

assign_sides-BuysFirst_example :
    let assigned = assign_sides step (tenths 1001) (tenths 1000) around_100 in
    (prices assigned ≡ prices around_100) × AllOnSide (tenths 1001) assigned × BuysFirst assigned
assign_sides-BuysFirst_example =
    assign_sides-BuysFirst fixed-IsOrdered step (tenths 1001) (tenths 1000) around_100
      around_100-IsAscending

abbrev grid : Grid Fixed
grid = record empty { levels = around_100 }

-- The top SELL was filled and the price has fallen back below it: all but the WAIT level are BUY.
abbrev sold_out : Grid Fixed
sold_out = record empty { levels = level buy 998 ∷ level buy 1000 ∷ level wait 1002 ∷ [] }

sold_out_centered_run :
    (center_grid sold_out).1.levels ≡ level buy 1000 ∷ level wait 1002 ∷ level sell 0 ∷ []
unfolding center_grid tally shift_up round_price ◌+ℤ◌
sold_out_centered_run = refl

-- The same through `update_grid`: a fill at the top level 100.4 with the price at 100.3 puts a SELL
-- at the price 0 on top of the grid.
sold_out_run :
    (update_grid (some (tenths 1004)) (some (tenths 1003)) grid).1.levels
    ≡ level buy 998 ∷ level buy 1000 ∷ level buy 1002 ∷ level wait 1004 ∷ level sell 0 ∷ []
unfolding update_grid rebuild_outside is_outside min_grid max_grid assign_sides assign_side
    is_too_close center_grid tally shift_up round_price notify_change ◌+ℤ◌ ◌-ℤ◌
sold_out_run = refl

update_grid-inside_example :
    length (update_grid (some (tenths 1002)) (some (tenths 1001)) grid).1.levels ≡ 5
unfolding is_outside min_grid max_grid
update_grid-inside_example =
    (update_grid-inside (tenths 1002) (tenths 1001) grid [] (omega arith) refl refl).2

-- A tick of 10.0 is too coarse: all prices round to 100.0.
abbrev coarse : Grid Fixed
coarse = record grid { tick_size = tenths 100 }

coarse_fails : (rebuild_grid (tenths 1010) coarse).0 ≡ err Error.duplicate_prices
unfolding rebuild_grid build_grid has_duplicates member built_levels upper_levels lower_levels
    round_price ◌+ℤ◌ ◌-ℤ◌
coarse_fails = refl
