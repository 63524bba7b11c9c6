-- ===== src/Grid/Update/Apply.antt =====
-- `update_grid` as a whole: what a fill does to a grid that the market price lies in.
use grid_bot_validation.Prelude.{◌≤◌, ◌≡◌, false, List, ◌∷◌, arith, length, length-map, some}
use grid_bot_validation.Float.{Floats}
use grid_bot_validation.Outcome.{ok}
use grid_bot_validation.Grid.Level.{Level, Grid, Change, notify_change}
use grid_bot_validation.Grid.Update.{
  update_grid, rebuild_outside, is_outside, assign_side, assign_sides, center_grid,
}
use grid_bot_validation.Grid.Update.Center.{center_grid-length}

module _ {F : Type 0} ⦃fl : Floats F⦄ where
  length-assign_sides :
      (step c f : F) (ls : List (Level F)) → length (assign_sides step c f ls) ≡ length ls
  unfolding assign_sides
  length-assign_sides step c f ls = length-map ls (assign_side step c f)

  abbrev assigned : F → F → Grid F → Grid F
  assigned fill_price last_close g = record g {
    levels = assign_sides g.grid_step last_close fill_price g.levels;
  }

  -- A fill while the market price lies strictly inside a grid of two or more levels: nothing is
  -- raised, the sides are assigned and then rebalanced, the number of levels and the anchor stay,
  -- and a callback is told of the final levels, once.
  pub update_grid-inside :
      (fill_price last_close : F) (g : Grid F) (log : List (Change F))
      → 2 ≤ length g.levels
      → is_outside last_close g.levels ≡ false
      → g.changes ≡ some log
      → let (r, g') = update_grid (some fill_price) (some last_close) g in
        (r ≡ ok tt)
        × (g'.levels ≡ (center_grid (assigned fill_price last_close g)).1.levels)
        × (length g'.levels ≡ length g.levels)
        × (g'.original_anchor_price ≡ g.original_anchor_price)
        × (g'.changes
            ≡ some (record { grid = g'.levels; exchange_ts = g.current_exchange_ts } ∷ log))
  unfolding update_grid rebuild_outside notify_change
  update_grid-inside fill_price last_close g log h inside e =
      let same = length-assign_sides g.grid_step last_close fill_price g.levels in
      ground
        (arith, same, center_grid-length (assigned fill_price last_close g) (omega (arith, same)))
