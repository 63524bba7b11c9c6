-- ===== src/Grid/Update/Center.antt =====
-- What `__center_grid` of packages/gridcore/src/gridcore/grid.py makes of a grid.
use grid_bot_validation.Prelude.{
  ℕ, suc, ◌+◌, ◌≤◌, ◌≡◌, refl, ap, Bool, false, List, [], ◌∷◌, arith, length, length-append,
  if◌then◌else◌,
}
use grid_bot_validation.Prelude.Int.{sub_ℕ}
use grid_bot_validation.Float.{Floats}
use grid_bot_validation.Outcome.{Result, ok}
use grid_bot_validation.Grid.Level.{GridSideType, buy, sell, Level, Grid, sides, is_side}
use grid_bot_validation.Grid.Update.{
  Tally, tally, tally_from, pop_first, pop_last, shift_up, shift_down, center_grid, count_side,
}

-- How many of the sides are `side`.
abbrev pub count : GridSideType → List GridSideType → ℕ
count side [] = 0
count side (x ∷ xs) = (if is_side x side then 1 else 0) + count side xs

module _ {F : Type 0} ⦃fl : Floats F⦄ where
  tally_from-counts :
      (t : Tally F) (ls : List (Level F))
      → ((tally_from t ls).buy_count ≡ t.buy_count + count buy (sides ls))
        × ((tally_from t ls).sell_count ≡ t.sell_count + count sell (sides ls))
  unfolding tally_from
  tally_from-counts t [] = omega arith
  tally_from-counts t (l ∷ ls) = ground (arith, tally_from-counts (count_side t l.side l.price) ls)

  tally-counts :
      (ls : List (Level F))
      → ((tally ls).buy_count ≡ count buy (sides ls))
        × ((tally ls).sell_count ≡ count sell (sides ls))
  unfolding tally
  tally-counts ls = omega (arith, tally_from-counts _ ls)

  length-pop_last :
      (l : Level F) (ls : List (Level F)) → suc (length (pop_last (l ∷ ls))) ≡ length (l ∷ ls)
  unfolding pop_last
  length-pop_last l [] = refl
  length-pop_last l (k ∷ ls) = ap suc (length-pop_last k ls)

  -- The ratio tests of `center_grid`, on the counts of its two kinds of level.
  abbrev pub exceeds : Grid F → GridSideType → GridSideType → Bool
  exceeds g a b =
      let na = count a (sides g.levels) in
      let nb = count b (sides g.levels) in
      fl.lt g.rebalance_threshold (fl.ratio (sub_ℕ na nb) (na + nb))

  -- What a call that began at `g` has kept, by its outcome and the grid that it left.
  abbrev pub Kept : Grid F → Result (Unit {0}) × Grid F → Type 0
  Kept g c =
      (c.0 ≡ ok tt)
      × (length c.1.levels ≡ length g.levels)
      × (c.1.changes ≡ g.changes)
      × (c.1.original_anchor_price ≡ g.original_anchor_price)
      × (c.1.current_exchange_ts ≡ g.current_exchange_ts)

  module _ (g : Grid F) (l k : Level F) (ls : List (Level F)) (e : g.levels ≡ l ∷ k ∷ ls) where
    shift_up-Kept : (t : Tally F) → Kept g (shift_up t g)
    unfolding shift_up
    shift_up-Kept t = (
      refl,
      omega (
        arith,
        length-append (pop_first g.levels) (_ ∷ []),
        ap (λ xs. length (pop_first xs)) e,
        ap length e,
      ),
      refl,
      refl,
      refl,
    )

    shift_down-Kept : (t : Tally F) → Kept g (shift_down t g)
    unfolding shift_down pop_last
    shift_down-Kept t = ground (arith, length-pop_last l (k ∷ ls), length-pop_last k ls)

    center_grid-Kept : Kept g (center_grid g)
    unfolding center_grid
    center_grid-Kept =
        ground (arith, shift_up-Kept (tally g.levels), shift_down-Kept (tally g.levels))

  center_grid-Kept_cases :
      (g : Grid F) (xs : List (Level F)) → g.levels ≡ xs → 2 ≤ length xs → Kept g (center_grid g)
  center_grid-Kept_cases g [] e h = absurd (omega arith)
  center_grid-Kept_cases g (l ∷ []) e h = absurd (omega arith)
  center_grid-Kept_cases g (l ∷ k ∷ ls) e h = center_grid-Kept g l k ls e

  -- Rebalancing a grid of two or more levels raises nothing and keeps the number of levels; it
  -- calls no `on_change` and leaves the anchor alone.
  pub center_grid-length : (g : Grid F) → 2 ≤ length g.levels → Kept g (center_grid g)
  center_grid-length g h = center_grid-Kept_cases g g.levels refl h

  -- While neither side outnumbers the other beyond the threshold, rebalancing changes nothing.
  pub center_grid-balanced :
      (g : Grid F)
      → exceeds g buy sell ≡ false
      → exceeds g sell buy ≡ false
      → center_grid g ≡ (ok tt, g)
  unfolding center_grid
  center_grid-balanced g h k = ground (arith, tally-counts g.levels)
