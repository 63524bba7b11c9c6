-- ===== src/Engine/Place.antt =====
-- The intents of one direction: `_create_place_intent`, `_place_grid_orders` and the cancels of
-- packages/gridcore/src/gridcore/engine.py, and `PlaceLimitIntent.create` of intents.py.
use grid_bot_validation.Prelude.{
  ℕ, suc, ◌+◌, ◌-◌, ◌/◌, ltb, ◌==◌, Bool, true, false, ◌&&◌, ◌||◌, Option, none, some, List, [],
  ◌∷◌, ◌++◌, map, length, if◌then◌else◌,
}
use grid_bot_validation.Float.{Floats, int}
use grid_bot_validation.Outcome.{Result, ok, err, Error}
use grid_bot_validation.Grid.Level.{GridSideType, buy, sell, wait, Level, is_side}
use grid_bot_validation.Grid.Build.{member}
use grid_bot_validation.Engine.Types.{
  Direction, Limit, PlaceLimitIntent, CancelReason, Intent, Engine,
}
use grid_bot_validation.Engine.Survivors.{sorted, enumerate, limits_by_price, split_buckets}

-- `_REDUCE_ONLY_MAP`; a WAIT level never gets here.
abbrev pub reduce_only_of : Direction → GridSideType → Bool
reduce_only_of Direction.long sell = true
reduce_only_of Direction.short buy = true
reduce_only_of _ _ = false

abbrev pub distance : ℕ → ℕ → ℕ
distance a b = (a - b) + (b - a)

module _ {F : Type 0} where
  -- `PlaceLimitIntent.create`, with the quantity 0 that the engine gives.
  unfoldable pub create : Engine F → GridSideType → F → ℕ → Direction → Bool → PlaceLimitIntent F
  create e side price grid_level direction reduce_only = record {
    symbol = e.symbol;
    side = side;
    price = price;
    qty = 0;
    reduce_only = reduce_only;
    client_order_id = e.digest (record {
      strat_id = e.strat_id;
      symbol = e.symbol;
      side = side;
      price = price;
      direction = direction;
    });
    grid_level = grid_level;
    direction = direction;
    order_link_id = none;
    post_only = false;
  }

  unfoldable pub cancel_limit : Engine F → CancelReason → Limit F → Intent F
  cancel_limit e reason limit = Intent.cancel (record {
    symbol = e.symbol;
    order_id = limit.order_id;
    reason = reason;
    price = limit.price;
    side = limit.side;
  })

  unfoldable pub cancel_all_limits : Engine F → CancelReason → List (Limit F) → List (Intent F)
  unfolding cancel_limit
  cancel_all_limits e reason = map (cancel_limit e reason)

  -- The first and the last position of a WAIT level.
  unfoldable pub wait_indices : ℕ → List (Level F) → Option (ℕ × ℕ)
  wait_indices i [] = none
  wait_indices i (l ∷ ls) = elim (wait_indices (suc i) ls) [
    | none ↦ if is_side l.side wait then some (i, i) else none
    | some (first, last) ↦ if is_side l.side wait then some (i, last) else some (first, last)
  ]

  -- `_get_wait_indices`
  unfoldable pub center_index : List (Level F) → ℕ
  unfolding wait_indices
  center_index ls = elim (wait_indices 0 ls) [
    | some (first, last) ↦ (first + last) / 2
    | none ↦ length ls / 2
  ]

  -- `indexed_grids`: the levels that are not WAIT, with their positions.
  unfoldable pub active_levels : List (ℕ × Level F) → List (ℕ × Level F)
  active_levels [] = []
  active_levels ((i, l) ∷ ls) =
      let rest = active_levels ls in if is_side l.side wait then rest else (i, l) ∷ rest

module _ {F : Type 0} ⦃fl : Floats F⦄ where
  -- The key of the second sort: the distance from the center, then the price.
  abbrev pub nearer : ℕ → ℕ × Level F → ℕ × Level F → Bool
  nearer center (i, l) (j, k) =
      ltb (distance i center) (distance j center)
      || (distance i center == distance j center) && fl.lt l.price k.price

  unfoldable pub sorted_grids : List (Level F) → List (ℕ × Level F)
  unfolding sorted enumerate center_index active_levels
  sorted_grids ls = sorted (nearer (center_index ls)) (active_levels (enumerate 0 ls))

  -- The price tests of `_create_place_intent`, on `diff_p`: `true` is a `return None`.
  abbrev pub not_eligible : GridSideType → (diff_p half_step : F) → Bool
  not_eligible side diff_p half_step =
      is_side side buy && fl.le diff_p (int 0)
      || is_side side sell && fl.le (int 0) diff_p
      || fl.le (fl.abs diff_p) half_step

  -- `(last_close - price) / last_close * 100`
  abbrev pub diff_percent : (last_close price : F) → F
  diff_percent last_close price = fl.mul (fl.div (fl.sub last_close price) last_close) (int 100)

  -- A market price of 0 makes the division raise.
  unfoldable pub create_place_intent :
      Engine F → Level F → Direction → (grid_level : ℕ) → Result (Option (PlaceLimitIntent F))
  create_place_intent e l direction grid_level =
      if is_side l.side wait then ok none else elim e.last_close [
        | none ↦ ok none
        | some last_close ↦
            if fl.eq last_close (int 0)
            then err Error.zero_division
            else if not_eligible l.side (diff_percent last_close l.price)
                (fl.div e.grid.grid_step (int 2))
            then ok none
            else ok (
                some
                  (create e l.side l.price grid_level direction (reduce_only_of direction l.side)))
      ]

  -- `survivors.get(price)`
  unfoldable pub survivor_at : List (F × Limit F) → F → Option (Limit F)
  survivor_at [] price = none
  survivor_at ((key, limit) ∷ rest) price =
      let later = survivor_at rest price in if fl.eq key price then some limit else later

  abbrev pub placed : Option (PlaceLimitIntent F) → List (Intent F)
  placed none = []
  placed (some p) = Intent.place p ∷ []

  -- One round of the loop over the grid levels.
  unfoldable pub check_level :
      Engine F → List (F × Limit F) → Direction → ℕ × Level F → Result (List (Intent F))
  check_level e survivors direction (index, l) = elim (survivor_at survivors (fl.round8 l.price)) [
    | some limit ↦
        if is_side limit.side l.side
        then ok []
        else elim (create_place_intent e l direction index) [
          | err x ↦ err x
          | ok p ↦ ok (cancel_limit e CancelReason.side_mismatch limit ∷ placed p)
        ]
    | none ↦ elim (create_place_intent e l direction index) [ err x ↦ err x | ok p ↦ ok (placed p) ]
  ]

  unfoldable pub check_levels :
      Engine F → List (F × Limit F) → Direction → List (ℕ × Level F) → Result (List (Intent F))
  check_levels e survivors direction [] = ok []
  check_levels e survivors direction (l ∷ ls) = elim (check_level e survivors direction l) [
    | err x ↦ err x
    | ok now ↦ elim (check_levels e survivors direction ls) [
      | err x ↦ err x
      | ok later ↦ ok (now ++ later)
    ]
  ]

  -- `grid_price_set`
  unfoldable pub grid_price_set : List (Level F) → List F
  grid_price_set = map λ l. fl.round8 l.price

  unfoldable pub outside_limits : List F → List (F × Limit F) → List (Limit F)
  outside_limits price_set [] = []
  outside_limits price_set ((price, limit) ∷ rest) =
      let later = outside_limits price_set rest in
      if member price price_set then later else limit ∷ later

  -- `_place_grid_orders`: duplicates first, then the levels from the center out, then the survivors
  -- that lie outside the grid.
  unfoldable pub place_grid_orders :
      Engine F → List (Limit F) → Direction → Result (List (Intent F))
  place_grid_orders e limits direction =
      let levels = e.grid.levels in
      let (survivors, extras) = split_buckets levels (limits_by_price limits) in
      elim (check_levels e survivors direction (sorted_grids levels)) [
        | err x ↦ err x
        | ok middle ↦ ok (
            cancel_all_limits e CancelReason.duplicate extras
            ++ (middle
                ++ cancel_all_limits e CancelReason.outside_grid
                    (outside_limits (grid_price_set levels) survivors)))
      ]
