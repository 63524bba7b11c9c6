-- ===== src/Grid/Build.antt =====
-- Building a grid around a price: `build_grid`, `_round_price`, `restore_grid`.
pub mod Shape
pub mod Sorted
use grid_bot_validation.Prelude.{
  ℕ, zero, suc, ◌/◌, Bool, true, false, ◌&&◌, ◌||◌, not, Option, none, some, List, [], ◌∷◌, ◌++◌,
  if◌then◌else◌,
}
use grid_bot_validation.Float.{Floats, int}
use grid_bot_validation.Outcome.{Result, ok, err, Error, Action, ◌>>=◌, ◌>>◌, modify, pure, raise}
use grid_bot_validation.Grid.Level.{GridSideType, Level, Grid, prices, notify_change}

module _ {F : Type 0} ⦃fl : Floats F⦄ where
  -- Of a tick size other than 0, which the instrument's data are checked for, and a quotient that is
  -- finite
  unfoldable pub round_price : (tick_size price : F) → F
  round_price tick price = fl.format10 (fl.mul (fl.round_int (fl.div price tick)) tick)

  -- `grid_step / 100`
  abbrev pub step_of : Grid F → F
  step_of g = fl.div g.grid_step (int 100)

  -- The two loops of `half_grid` rounds: each price is rounded from the one before. The upper
  -- levels are appended, the lower ones put in front.
  unfoldable pub upper_levels : (tick factor price : F) (rounds : ℕ) → List (Level F)
  upper_levels tick factor price zero = []
  upper_levels tick factor price (suc n) =
      let p = round_price tick (fl.mul price factor) in
      record { side = GridSideType.sell; price = p } ∷ upper_levels tick factor p n

  unfoldable pub lower_levels :
      (tick factor price : F) (rounds : ℕ) (above : List (Level F)) → List (Level F)
  lower_levels tick factor price zero above = above
  lower_levels tick factor price (suc n) above =
      let p = round_price tick (fl.mul price factor) in
      lower_levels tick factor p n (record { side = GridSideType.buy; price = p } ∷ above)

  -- The levels that `build_grid` makes, before its safety check.
  unfoldable pub built_levels : Grid F → F → List (Level F)
  built_levels g last_close =
      let half = g.grid_count / 2 in
      lower_levels g.tick_size (fl.sub (int 1) (step_of g)) last_close half (
        record { side = GridSideType.wait; price = round_price g.tick_size last_close }
        ∷ upper_levels g.tick_size (fl.add (int 1) (step_of g)) last_close half)

  -- `price in set`, and `len(prices) != len(set(prices))`.
  unfoldable pub member : F → List F → Bool
  member x [] = false
  member x (y ∷ ys) = fl.eq x y || member x ys

  unfoldable pub has_duplicates : List F → Bool
  unfolding member
  has_duplicates [] = false
  has_duplicates (x ∷ xs) = member x xs || has_duplicates xs

  -- On the `ValueError` the levels are already in place, and `on_change` is not called.
  unfoldable pub build_grid : F → Action (Grid F) (Unit {0})
  build_grid last_close g =
      if fl.eq last_close (int 0)
      then (ok tt, g)
      else let g' = record g {
        levels = built_levels g last_close;
        original_anchor_price = some (round_price g.tick_size last_close);
      } in
        if has_duplicates (prices g'.levels)
        then (err Error.duplicate_prices, g')
        else (ok tt, notify_change g')

  -- `__rebuild_grid`: the old levels go first, also where `build_grid` then does nothing.
  unfoldable pub rebuild_grid : F → Action (Grid F) (Unit {0})
  rebuild_grid last_close g = build_grid last_close (record g { levels = [] })
