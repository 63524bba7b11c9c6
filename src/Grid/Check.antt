-- ===== src/Grid/Check.antt =====
-- Reading a grid: `is_grid_correct`, `bounds`, `__min_grid`, `__max_grid`, `wait_center`, and
-- `restore_grid`, which validates by them.
pub mod Pattern
pub mod Bounds
pub mod Restore
use grid_bot_validation.Prelude.{
  ℕ, zero, suc, ◌/◌, ◌%◌, ◌-◌, ◌==◌, Bool, true, false, ◌&&◌, Option, none, some, List, [], ◌∷◌,
  if◌then◌else◌, length, get_elem?,
}
use grid_bot_validation.Float.{Floats, int}
use grid_bot_validation.Outcome.{Result, ok, err, Error}
use grid_bot_validation.Grid.Level.{GridSideType, Level, Grid, is_side, prices, sides}

-- `current_state` 0, 1 and 2 of `is_grid_correct`.
pub data Phase : Type 0 where
  in_buy in_wait in_sell : Phase

pub record Scan : Type 0 where
  pub current_state : Phase
  pub has_seen_buy : Bool
  pub has_seen_sell : Bool

-- One round of the loop on the state's three variables; `none` is `return False`.
unfoldable pub scan_side : Phase → (has_seen_buy has_seen_sell : Bool) → GridSideType → Option Scan
scan_side Phase.in_buy b s GridSideType.buy =
    some (record { current_state = Phase.in_buy; has_seen_buy = true; has_seen_sell = s })
scan_side Phase.in_buy true s GridSideType.wait =
    some (record { current_state = Phase.in_wait; has_seen_buy = true; has_seen_sell = s })
scan_side Phase.in_wait b s GridSideType.wait =
    some (record { current_state = Phase.in_wait; has_seen_buy = b; has_seen_sell = s })
scan_side Phase.in_buy true s GridSideType.sell =
    some (record { current_state = Phase.in_sell; has_seen_buy = true; has_seen_sell = true })
scan_side Phase.in_wait b s GridSideType.sell =
    some (record { current_state = Phase.in_sell; has_seen_buy = b; has_seen_sell = true })
scan_side Phase.in_sell b s GridSideType.sell =
    some (record { current_state = Phase.in_sell; has_seen_buy = b; has_seen_sell = s })
scan_side _ _ _ _ = none

abbrev ends_in_sell : Phase → Bool
ends_in_sell Phase.in_sell = true
ends_in_sell _ = false

-- The loop over the sides of the levels, and the last line.
unfoldable pub scan : Scan → List GridSideType → Bool
unfolding scan_side
scan c [] = c.has_seen_buy && c.has_seen_sell && ends_in_sell c.current_state
scan c (side ∷ rest) = elim (scan_side c.current_state c.has_seen_buy c.has_seen_sell side) [
  | none ↦ false
  | some c' ↦ scan c' rest
]

abbrev pub scan_start : Scan
scan_start = record { current_state = Phase.in_buy; has_seen_buy = false; has_seen_sell = false }

module _ {F : Type 0} ⦃fl : Floats F⦄ where
  -- `__is_price_sorted`, from `previous_price` on.
  unfoldable pub sorted_from : F → List (Level F) → Bool
  sorted_from previous_price [] = true
  sorted_from previous_price (l ∷ ls) =
      if fl.le l.price previous_price then false else sorted_from l.price ls

  unfoldable pub is_price_sorted : List (Level F) → Bool
  unfolding sorted_from
  is_price_sorted = sorted_from fl.neg_inf

  unfoldable pub is_grid_correct : List (Level F) → Bool
  unfolding is_price_sorted scan
  is_grid_correct ls = if is_price_sorted ls then scan scan_start (sides ls) else false

  -- The loop of `bounds` on `lo` and `hi`.
  unfoldable pub bounds_from : (lo hi : F) → List (Level F) → F × F
  bounds_from lo hi [] = (lo, hi)
  bounds_from lo hi (l ∷ ls) =
      let below = fl.lt l.price lo in
      bounds_from (if below then l.price else lo)
        (if below then hi else if fl.lt hi l.price then l.price else hi) ls

  unfoldable pub bounds : List (Level F) → Result (F × F)
  unfolding bounds_from
  bounds [] = err Error.empty_grid
  bounds (l ∷ ls) = ok (bounds_from l.price l.price ls)

  -- Python's `min` and `max` of a list: the first of the least, of the greatest.
  unfoldable pub min_from : F → List F → F
  min_from m [] = m
  min_from m (x ∷ xs) = min_from (if fl.lt x m then x else m) xs

  unfoldable pub max_from : F → List F → F
  max_from m [] = m
  max_from m (x ∷ xs) = max_from (if fl.lt m x then x else m) xs

  -- `__min_grid` and `__max_grid`
  unfoldable pub min_grid : List (Level F) → Result F
  unfolding min_from
  min_grid [] = err Error.empty_grid
  min_grid (l ∷ ls) = ok (min_from l.price (prices ls))

  unfoldable pub max_grid : List (Level F) → Result F
  unfolding max_from
  max_grid [] = err Error.empty_grid
  max_grid (l ∷ ls) = ok (max_from l.price (prices ls))

  unfoldable pub wait_prices : List (Level F) → List F
  wait_prices [] = []
  wait_prices (l ∷ ls) =
      let rest = wait_prices ls in if is_side l.side GridSideType.wait then l.price ∷ rest else rest

  -- `self.grid[i]['price']`
  unfoldable pub price_at : List (Level F) → ℕ → Result F
  price_at ls i = elim (get_elem? ls i) [
    | none ↦ err Error.index_out_of_range
    | some l ↦ ok l.price
  ]

  abbrev midpoint : F → F → F
  midpoint a b = fl.div (fl.add a b) (int 2)

  abbrev midpoint_at : List (Level F) → ℕ → ℕ → Result F
  midpoint_at ls i j = elim (price_at ls i) [
    | err e ↦ err e
    | ok a ↦ elim (price_at ls j) [ err e ↦ err e | ok b ↦ ok (midpoint a b) ]
  ]

  -- The price in the middle of the list, or between its two middle ones.
  unfoldable pub median : List (Level F) → Result F
  unfolding price_at
  median ls =
      let n = length ls in
      if n % 2 == 0 then midpoint_at ls (n / 2 - 1) (n / 2) else price_at ls (n / 2)

  -- The cases of `wait_center` on the prices of the WAIT levels.
  unfoldable pub center_of : List (Level F) → List F → Result F
  unfolding median min_from max_from
  center_of ls [] = median ls
  center_of ls (p ∷ ps) = ok (midpoint (min_from p ps) (max_from p ps))

  unfoldable pub wait_center : List (Level F) → Result F
  unfolding center_of wait_prices
  wait_center [] = err Error.empty_grid
  wait_center (l ∷ ls) = center_of (l ∷ ls) (wait_prices (l ∷ ls))
