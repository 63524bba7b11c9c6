-- ===== src/Grid/Update.antt =====
-- The grid after a fill: `update_grid`, `_assign_sides`, `__is_too_close` and `__center_grid`.
pub mod Assign
pub mod Center
pub mod Apply
use grid_bot_validation.Prelude.{
  ℕ, suc, ◌+◌, ◌==◌, Bool, true, false, ◌&&◌, ◌||◌, not, Option, none, some, List, [], ◌∷◌, ◌++◌,
  map, if◌then◌else◌,
}
use grid_bot_validation.Prelude.Int.{ℤ, pos, sub_ℕ}
use grid_bot_validation.Float.{Floats, int}
use grid_bot_validation.Outcome.{Result, ok, err, Error, Action, ◌>>=◌, ◌>>◌, modify}
use grid_bot_validation.Grid.Level.{GridSideType, buy, sell, wait, Level, Grid, notify_change}
use grid_bot_validation.Grid.Build.{round_price, step_of, rebuild_grid}
use grid_bot_validation.Grid.Check.{min_grid, max_grid}

module _ {F : Type 0} ⦃fl : Floats F⦄ where
  -- `__is_too_close`, at the grid's step.
  unfoldable pub is_too_close : (grid_step price1 price2 : F) → Bool
  is_too_close grid_step price1 price2 =
      if fl.eq price1 (int 0) || fl.eq grid_step (int 0)
      then false
      else fl.lt (fl.mul (fl.div (fl.abs (fl.sub price1 price2)) price1) (int 100))
          (fl.div grid_step (int 4))

  -- One round of the loop of `_assign_sides`.
  unfoldable pub assign_side : (grid_step last_close fill_price : F) → Level F → Level F
  assign_side grid_step last_close fill_price l =
      if is_too_close grid_step l.price fill_price
      then record l { side = wait }
      else if fl.lt last_close l.price
      then record l { side = sell }
      else if fl.lt l.price last_close
      then record l { side = buy }
      else l

  unfoldable pub assign_sides :
      (grid_step last_close fill_price : F) → List (Level F) → List (Level F)
  assign_sides grid_step last_close fill_price = map (assign_side grid_step last_close fill_price)

-- The variables of the counting loop of `__center_grid`.
pub record Tally (F : Type 0) : Type 0 where
  pub buy_count : ℕ
  pub sell_count : ℕ
  pub highest_sell_price : F
  pub lowest_buy_price : Option F

module _ {F : Type 0} ⦃fl : Floats F⦄ where
  abbrev pub lower_of : Option F → F → F
  lower_of none p = p
  lower_of (some q) p = if fl.lt p q then p else q

  abbrev pub count_side : Tally F → GridSideType → F → Tally F
  count_side t buy p = record t {
    buy_count = t.buy_count + 1;
    lowest_buy_price = some (lower_of t.lowest_buy_price p);
  }
  count_side t sell p = record t { sell_count = t.sell_count + 1; highest_sell_price = p }
  count_side t wait p = t

  unfoldable pub tally_from : Tally F → List (Level F) → Tally F
  tally_from t [] = t
  tally_from t (l ∷ ls) = tally_from (count_side t l.side l.price) ls

  unfoldable pub tally : List (Level F) → Tally F
  unfolding tally_from
  tally = tally_from (record {
    buy_count = 0;
    sell_count = 0;
    highest_sell_price = int 0;
    lowest_buy_price = none;
  })

  -- `self.grid.pop(0)` and `self.grid.pop()`, of a grid with a level.
  abbrev pub pop_first : List (Level F) → List (Level F)
  pop_first [] = []
  pop_first (l ∷ ls) = ls

  unfoldable pub pop_last : List (Level F) → List (Level F)
  pop_last [] = []
  pop_last (l ∷ []) = []
  pop_last (l ∷ k ∷ ls) = l ∷ pop_last (k ∷ ls)

  -- Too many buys: the bottom line goes, and a SELL is put on top.
  unfoldable pub shift_up : Tally F → Action (Grid F) (Unit {0})
  shift_up t g =
      let price =
        round_price g.tick_size (fl.mul t.highest_sell_price (fl.add (int 1) (step_of g))) in
      (
        ok tt,
        record g { levels = pop_first g.levels ++ record { side = sell; price = price } ∷ [] },
      )

  abbrev pub below_price : Grid F → F → F
  below_price g base = round_price g.tick_size (fl.mul base (fl.sub (int 1) (step_of g)))

  -- Too many sells: the top line goes, and a BUY is put below. With no BUY left the price is
  -- reckoned from `self.grid[0]`, which raises if the top line was the only one.
  abbrev pub base_price : Option F → List (Level F) → Result F
  base_price (some p) rest = ok p
  base_price none [] = err Error.index_out_of_range
  base_price none (l ∷ ls) = ok l.price

  unfoldable pub shift_down : Tally F → Action (Grid F) (Unit {0})
  shift_down t g =
      let rest = pop_last g.levels in
      elim (base_price t.lowest_buy_price rest) [
        | err e ↦ (err e, record g { levels = rest })
        | ok base ↦
            (ok tt, record g { levels = record { side = buy; price = below_price g base } ∷ rest })
      ]

  unfoldable pub center_grid : Action (Grid F) (Unit {0})
  center_grid g =
      let t = tally g.levels in
      let total = t.buy_count + t.sell_count in
      if total == 0
      then (ok tt, g)
      else if fl.lt g.rebalance_threshold (fl.ratio (sub_ℕ t.buy_count t.sell_count) total)
      then shift_up t g
      else if fl.lt g.rebalance_threshold (fl.ratio (sub_ℕ t.sell_count t.buy_count) total)
      then shift_down t g
      else (ok tt, g)

  -- `not self.grid or not (self.__min_grid < last_close < self.__max_grid)`
  unfoldable pub is_outside : F → List (Level F) → Bool
  is_outside last_close ls = elim (min_grid ls) [
    | err _ ↦ true
    | ok lo ↦ elim (max_grid ls) [
      | err _ ↦ true
      | ok hi ↦ not (fl.lt lo last_close && fl.lt last_close hi)
    ]
  ]

  abbrev rebuild_if : Bool → F → Action (Grid F) (Unit {0})
  rebuild_if true last_close g = rebuild_grid last_close g
  rebuild_if false last_close g = (ok tt, g)

  unfoldable pub rebuild_outside : F → Action (Grid F) (Unit {0})
  rebuild_outside last_close g = rebuild_if (is_outside last_close g.levels) last_close g

  -- The part of `update_grid` after its two early returns.
  unfoldable pub apply_fill : (fill_price last_close : F) → Action (Grid F) (Unit {0})
  apply_fill fill_price last_close = do
    rebuild_outside last_close
    modify λ g. record g { levels = assign_sides g.grid_step last_close fill_price g.levels }
    center_grid
    modify notify_change

  unfoldable pub update_grid :
      (last_filled_price last_close : Option F) → Action (Grid F) (Unit {0})
  unfolding apply_fill
  update_grid none last_close g = (ok tt, g)
  update_grid (some fill_price) none g = (ok tt, g)
  update_grid (some fill_price) (some last_close) g = apply_fill fill_price last_close g
