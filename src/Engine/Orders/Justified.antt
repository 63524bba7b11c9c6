-- ===== src/Engine/Orders/Justified.antt =====
-- What stands behind a placement: the loop of `_place_grid_orders` of
-- packages/gridcore/src/gridcore/engine.py.
use grid_bot_validation.Prelude.{
  ℕ, ◌≡◌, refl, sym, subst, ◌⊎◌, inl, inr, true, false, Option, none, some, List, [], ◌∷◌, ◌++◌,
  arith, get_elem?, Bool-cases, Option-cases,
}
use grid_bot_validation.Float.{Floats, int}
use grid_bot_validation.Float.Order.{IsOrdered}
use grid_bot_validation.Outcome.{ok, Result-cases}
use grid_bot_validation.Grid.Level.{wait, Level, is_side}
use grid_bot_validation.Engine.Types.{
  Direction, Limit, PlaceLimitIntent, CancelReason, Intent, Engine,
}
use grid_bot_validation.Engine.Survivors.{limits_by_price, split_buckets}
use grid_bot_validation.Engine.Place.{
  create, not_eligible, reduce_only_of, cancel_limit, cancel_all_limits, placed, diff_percent,
  create_place_intent, check_level, check_levels, sorted_grids, survivor_at, place_grid_orders,
  outside_limits, grid_price_set,
}
use grid_bot_validation.Engine.Cancels.Levels.{check_levels_inversion}
use grid_bot_validation.Engine.Orders.{
  IsTradable, IsJustified, AllJustified, AllJustified-append, AllJustified-cancel_all_limits, AllAt,
  AllAt-sorted_grids,
}

module _ {F : Type 0} ⦃fl : Floats F⦄ where
  pub check_level_inversion :
      (e : Engine F) (survivors : List (F × Limit F)) (d : Direction) (l : ℕ × Level F)
      {is : List (Intent F)}
      → check_level e survivors d l ≡ ok is
      → ((limit : Limit F) × (survivor_at survivors (fl.round8 l.1.price) ≡ some limit)
          × (is_side limit.side l.1.side ≡ true)
          × (is ≡ []))
        ⊎ ((p : Option (PlaceLimitIntent F)) × (create_place_intent e l.1 d l.0 ≡ ok p)
            × ((is ≡ placed p)
                ⊎ ((limit : Limit F) × (is
                      ≡ cancel_limit e CancelReason.side_mismatch limit ∷ placed p))))
  unfolding check_level
  check_level_inversion e survivors d l {is} h =
      elim (Option-cases (survivor_at survivors (fl.round8 l.1.price))) [
        | inl absent ↦ elim (Result-cases (create_place_intent e l.1 d l.0)) [
          | inl (x, failed) ↦ absurd (ground arith)
          | inr (p, made) ↦ inr (p, made, inl (ground arith))
        ]
        | inr (limit, live) ↦ elim (Bool-cases (is_side limit.side l.1.side)) [
          | inl fits ↦ inl (limit, live, fits, ground arith)
          | inr differs ↦ elim (Result-cases (create_place_intent e l.1 d l.0)) [
            | inl (x, failed) ↦ absurd (ground arith)
            | inr (p, made) ↦ inr (p, made, inr (limit, ground arith))
          ]
        ]
      ]

  pub place_grid_orders_inversion :
      (e : Engine F) (limits : List (Limit F)) (d : Direction) {is : List (Intent F)}
      → place_grid_orders e limits d ≡ ok is
      → let (survivors, extras) = split_buckets e.grid.levels (limits_by_price limits) in
        (middle : List (Intent F)) × (check_levels e survivors d (sorted_grids e.grid.levels)
          ≡ ok middle)
        × (is
            ≡ cancel_all_limits e CancelReason.duplicate extras
              ++ (middle
                  ++ cancel_all_limits e CancelReason.outside_grid
                      (outside_limits (grid_price_set e.grid.levels) survivors)))
  unfolding place_grid_orders
  place_grid_orders_inversion e limits d {is} h =
      elim (Result-cases (
        check_levels e (split_buckets e.grid.levels (limits_by_price limits)).0 d
          (sorted_grids e.grid.levels))) [
            | inl (x, failed) ↦ absurd (ground arith)
            | inr (middle, done) ↦ (middle, done, ground arith)
          ]

module _ {F : Type 0} ⦃fl : Floats F⦄ (o : IsOrdered fl) where
  -- What a call that returns a placement has found.
  create_place_intent_inversion :
      (e : Engine F) (l : Level F) (d : Direction) (i : ℕ) {p : PlaceLimitIntent F}
      → create_place_intent e l d i ≡ ok (some p)
      → (c : F) × (e.last_close ≡ some c)
        × (is_side l.side wait ≡ false)
        × (not_eligible l.side (diff_percent c l.price) (fl.div e.grid.grid_step (int 2)) ≡ false)
        × (create e l.side l.price i d (reduce_only_of d l.side) ≡ p)
  unfolding create_place_intent
  create_place_intent_inversion e l d i {p} h = elim (Option-cases e.last_close) [
    | inl unknown ↦ absurd (ground arith)
    | inr (c, known) ↦ (c, known, ground arith, ground arith, ground arith)
  ]

  eligible-IsTradable :
      (step c : F) (l : Level F)
      → is_side l.side wait ≡ false
      → not_eligible l.side (diff_percent c l.price) (fl.div step (int 2)) ≡ false
      → IsTradable step c l
  eligible-IsTradable step c l active eligible =
      let diff = diff_percent c l.price in
      record {
        not_wait = active;
        below = λ s. ground (arith, o.le-eq-not-lt diff (int 0));
        above = λ s. ground (arith, o.le-eq-not-lt (int 0) diff);
        far = ground (arith, o.le-eq-not-lt (fl.abs diff) (fl.div step (int 2)));
      }

  create_place_intent-IsJustified :
      (e : Engine F) (l : Level F) (d : Direction) (i : ℕ) {p : PlaceLimitIntent F}
      → get_elem? e.grid.levels i ≡ some l
      → create_place_intent e l d i ≡ ok (some p)
      → IsJustified e d p
  unfolding create
  create_place_intent-IsJustified e l d i {p} at h =
      let (c, known, active, eligible, same) = create_place_intent_inversion e l d i h in
      subst (IsJustified e d) same (record {
        at_level = at;
        last_close = c;
        known = known;
        tradable = eligible-IsTradable e.grid.grid_step c l active eligible;
        closes = refl;
        same_direction = refl;
        identity = refl;
      })

  placed-AllJustified :
      (e : Engine F) (l : Level F) (d : Direction) (i : ℕ) (p : Option (PlaceLimitIntent F))
      → get_elem? e.grid.levels i ≡ some l
      → create_place_intent e l d i ≡ ok p
      → AllJustified e d (placed p)
  placed-AllJustified e l d i none at h = tt
  placed-AllJustified e l d i (some p) at h = (create_place_intent-IsJustified e l d i at h, tt)

  check_level-AllJustified :
      (e : Engine F) (survivors : List (F × Limit F)) (d : Direction) (l : ℕ × Level F)
      {is : List (Intent F)}
      → get_elem? e.grid.levels l.0 ≡ some l.1
      → check_level e survivors d l ≡ ok is
      → AllJustified e d is
  unfolding cancel_limit
  check_level-AllJustified e survivors d l {is} at h =
      elim (check_level_inversion e survivors d l h) [
        | inl (limit, live, fits, nothing) ↦ subst (AllJustified e d) (sym nothing) tt
        | inr (p, made, shape) ↦
            let good = placed-AllJustified e l.1 d l.0 p at made in
            elim shape [
              | inl alone ↦ subst (AllJustified e d) (sym alone) good
              | inr (limit, after_cancel) ↦ subst (AllJustified e d) (sym after_cancel) good
            ]
      ]

  check_levels-AllJustified :
      (e : Engine F) (survivors : List (F × Limit F)) (d : Direction) (ls : List (ℕ × Level F))
      {is : List (Intent F)}
      → AllAt e.grid.levels ls
      → check_levels e survivors d ls ≡ ok is
      → AllJustified e d is
  unfolding check_levels
  check_levels-AllJustified e survivors d [] {is} a h =
      let nothing : is ≡ [] = ground arith in subst (AllJustified e d) (sym nothing) tt
  check_levels-AllJustified e survivors d (l ∷ ls) {is} a h =
      let (now, later, first, rest, both) = check_levels_inversion e survivors d l ls h in
      subst (AllJustified e d) (sym both) (
        AllJustified-append e d now later (check_level-AllJustified e survivors d l a.0 first)
          (check_levels-AllJustified e survivors d ls a.1 rest))

  -- Every placement of a round is justified: it stands for the level at its position in the grid,
  -- the market price lies on the right side of that level and further away than half a grid step,
  -- it is reduce-only exactly where the hedge map says so, and its id is the digest of its identity.
  pub place_grid_orders-AllJustified :
      (e : Engine F) (limits : List (Limit F)) (d : Direction) {is : List (Intent F)}
      → place_grid_orders e limits d ≡ ok is
      → AllJustified e d is
  place_grid_orders-AllJustified e limits d {is} h =
      let (middle, done, parts) = place_grid_orders_inversion e limits d h in
      let levels = e.grid.levels in
      let survivors = (split_buckets levels (limits_by_price limits)).0 in
      let extras = (split_buckets levels (limits_by_price limits)).1 in
      let outside = outside_limits (grid_price_set levels) survivors in
      subst (AllJustified e d) (sym parts) (
        AllJustified-append e d (cancel_all_limits e CancelReason.duplicate extras)
          (middle ++ cancel_all_limits e CancelReason.outside_grid outside)
          (AllJustified-cancel_all_limits e d CancelReason.duplicate extras)
          (AllJustified-append e d middle (cancel_all_limits e CancelReason.outside_grid outside)
            (check_levels-AllJustified e survivors d (sorted_grids levels)
              (AllAt-sorted_grids levels) done)
            (AllJustified-cancel_all_limits e d CancelReason.outside_grid outside)))
