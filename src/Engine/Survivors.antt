-- ===== src/Engine/Survivors.antt =====
-- One order for each price: the grouping of `_place_grid_orders`, `_select_survivor` and
-- `_has_fill_history` of packages/gridcore/src/gridcore/engine.py.
use grid_bot_validation.Prelude.{
  ℕ, suc, ◌==◌, Bool, false, ◌&&◌, not, Option, none, some, List, [], ◌∷◌, ◌++◌, if◌then◌else◌,
}
use grid_bot_validation.Prelude.Int.{pos, ltb_ℤ}
use grid_bot_validation.Float.{Floats}
use grid_bot_validation.Grid.Level.{GridSideType, wait, Level, is_side}
use grid_bot_validation.Engine.Types.{ExecQty, Limit}

-- Python's `sorted`, which is stable: `before a b` says that the key of `a` is below that of `b`.
module _ {ℓ} {A : Type ℓ} (before : A → A → Bool) where
  unfoldable pub insert_sorted : A → List A → List A
  insert_sorted a [] = a ∷ []
  insert_sorted a (b ∷ bs) =
      let rest = insert_sorted a bs in if before b a then b ∷ rest else a ∷ b ∷ bs

  unfoldable pub sorted : List A → List A
  unfolding insert_sorted
  sorted [] = []
  sorted (a ∷ as') = insert_sorted a (sorted as')

-- Python's `enumerate`, from `i` on.
unfoldable pub enumerate {ℓ} : {A : Type ℓ} → ℕ → List A → List (ℕ × A)
enumerate i [] = []
enumerate i (a ∷ as') = (i, a) ∷ enumerate (suc i) as'

-- `limits_by_price`: a dict in insertion order, from a rounded price to its orders.
abbrev pub Buckets : Type 0 → Type 0
Buckets F = List (F × List (Limit F))

-- An order of a bucket with its position there, by which `is` tells orders apart.
abbrev pub Placed : Type 0 → Type 0
Placed F = ℕ × Limit F

module _ {F : Type 0} where
  unfoldable pub has_fill_history : Limit F → Bool
  has_fill_history limit = elim limit.cum_exec_qty [
    | ExecQty.absent ↦ false
    | ExecQty.not_a_number ↦ false
    | ExecQty.amount qty ↦ ltb_ℤ (pos 0) qty
  ]

  unfoldable pub matching : GridSideType → List (Placed F) → List (Placed F)
  matching side [] = []
  matching side (p ∷ ps) =
      let rest = matching side ps in if is_side p.1.side side then p ∷ rest else rest

  abbrev pub pool_of : List (Placed F) → List (Placed F) → List (Placed F)
  pool_of bucket [] = bucket
  pool_of bucket (p ∷ ps) = p ∷ ps

  -- The orders that the choice is made from.
  unfoldable pub pool : List (Placed F) → Option GridSideType → List (Placed F)
  unfolding matching
  pool bucket none = bucket
  pool bucket (some side) = pool_of bucket (matching side bucket)

  -- The first with a fill history, or else the default, which is the first of the pool.
  unfoldable pub first_filled : Placed F → List (Placed F) → Placed F
  first_filled default [] = default
  first_filled default (p ∷ ps) =
      let rest = first_filled default ps in if has_fill_history p.1 then p else rest

  unfoldable pub select_from : List (Placed F) → Option (Placed F)
  unfolding first_filled
  select_from [] = none
  select_from (p ∷ ps) = some (first_filled p (p ∷ ps))

  -- `_select_survivor`; `none` only for an empty bucket, which the grouping never makes.
  unfoldable pub select_survivor : List (Limit F) → Option GridSideType → Option (Placed F)
  unfolding enumerate pool select_from
  select_survivor bucket grid_side = select_from (pool (enumerate 0 bucket) grid_side)

  -- The orders of the bucket that are not the survivor.
  unfoldable pub extras_at : ℕ → List (Placed F) → List (Limit F)
  extras_at i [] = []
  extras_at i (p ∷ ps) = let rest = extras_at i ps in if p.0 == i then rest else p.1 ∷ rest

module _ {F : Type 0} ⦃fl : Floats F⦄ where
  -- `limits_by_price.setdefault(price, []).append(limit)`
  unfoldable pub add_to_bucket : F → Limit F → Buckets F → Buckets F
  add_to_bucket price limit [] = (price, limit ∷ []) ∷ []
  add_to_bucket price limit ((key, bucket) ∷ rest) =
      let rest' = add_to_bucket price limit rest in
      if fl.eq key price then (key, bucket ++ limit ∷ []) ∷ rest else (key, bucket) ∷ rest'

  unfoldable pub group_from : Buckets F → List (Limit F) → Buckets F
  unfolding add_to_bucket
  group_from buckets [] = buckets
  group_from buckets (limit ∷ limits) =
      group_from (add_to_bucket (fl.round8 limit.price) limit buckets) limits

  unfoldable pub limits_by_price : List (Limit F) → Buckets F
  unfolding group_from sorted
  limits_by_price limits = group_from [] (sorted (λ a b. fl.lt a.price b.price) limits)

  -- `grid_sides.get(price)`: of the levels that are not WAIT the last one at that rounded price.
  unfoldable pub grid_side_at : List (Level F) → F → Option GridSideType
  grid_side_at [] price = none
  grid_side_at (l ∷ ls) price = elim (grid_side_at ls price) [
    | some side ↦ some side
    | none ↦
        if not (is_side l.side wait) && fl.eq (fl.round8 l.price) price then some l.side else none
  ]

  -- The loop over the buckets: the survivors by rounded price, and the shadowed duplicates.
  unfoldable pub split_buckets : List (Level F) → Buckets F → List (F × Limit F) × List (Limit F)
  split_buckets levels [] = ([], [])
  split_buckets levels ((price, bucket) ∷ rest) =
      let (survivors, extras) = split_buckets levels rest in
      elim (select_survivor bucket (grid_side_at levels price)) [
        | none ↦ (survivors, extras)
        | some (i, limit) ↦ ((price, limit) ∷ survivors, extras_at i (enumerate 0 bucket) ++ extras)
      ]
