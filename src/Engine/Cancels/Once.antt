-- ===== src/Engine/Cancels/Once.antt =====
-- The rounded prices of the sorted levels, and the cancels of the whole of `_place_grid_orders` of
-- packages/gridcore/src/gridcore/engine.py.
use grid_bot_validation.Prelude.{
  ℕ, suc, ◌≤◌, ◌≡◌, refl, sym, ap, ◌∙◌, Bool, true, false, ◌||◌, List, [], ◌∷◌, ◌++◌, arith,
  Bool-cases, inl, inr,
}
use grid_bot_validation.Float.{Floats}
use grid_bot_validation.Float.Order.{IsOrdered}
use grid_bot_validation.Outcome.{ok, Result-cases}
use grid_bot_validation.Grid.Level.{Level}
use grid_bot_validation.Grid.Build.{member, has_duplicates}
use grid_bot_validation.Engine.Types.{Direction, Limit, Intent, CancelReason, Engine}
use grid_bot_validation.Engine.Survivors.{
  insert_sorted, sorted, enumerate, limits_by_price, split_buckets,
}
use grid_bot_validation.Engine.Place.{
  cancel_all_limits, check_levels, active_levels, grid_price_set, sorted_grids, outside_limits,
  nearer, center_index, place_grid_orders,
}
use grid_bot_validation.Engine.Cancels.Buckets.{
  occurs, occurs-limits_by_price, occurs-split_buckets,
}
use grid_bot_validation.Engine.Cancels.Levels.{
  cancel_count, cancel_count-append, cancel_count-cancel_all_limits, level_prices,
  check_levels-sum_at, sum_at-inside_count, inside_count_mono, inside_count-outside_limits,
}

module _ {F : Type 0} ⦃fl : Floats F⦄ (o : IsOrdered fl) where
  eq_sym : (x y : F) → fl.eq x y ≡ fl.eq y x
  eq_sym x y = elim (Bool-cases (fl.eq x y)) [
    | inl same ↦ elim (Bool-cases (fl.eq y x)) [
      | inl back ↦ same ∙ sym back
      | inr other ↦ absurd (cc (other, (o.eq_iff y x).1 (sym ((o.eq_iff x y).0 same))))
    ]
    | inr other ↦ elim (Bool-cases (fl.eq y x)) [
      | inl back ↦ absurd (cc (other, (o.eq_iff x y).1 (sym ((o.eq_iff y x).0 back))))
      | inr none_equal ↦ other ∙ sym none_equal
    ]
  ]

  module _ (before : ℕ × Level F → ℕ × Level F → Bool) where
    member-insert_sorted :
        (x : F) (a : ℕ × Level F) (bs : List (ℕ × Level F))
        → member x (level_prices (insert_sorted before a bs)) ≡ member x (level_prices (a ∷ bs))
    unfolding insert_sorted member
    member-insert_sorted x a [] = refl
    member-insert_sorted x a (b ∷ bs) = ground (arith, member-insert_sorted x a bs)

    has_duplicates-insert_sorted :
        (a : ℕ × Level F) (bs : List (ℕ × Level F))
        → has_duplicates (level_prices (insert_sorted before a bs))
          ≡ has_duplicates (level_prices (a ∷ bs))
    unfolding insert_sorted member has_duplicates
    has_duplicates-insert_sorted a [] = refl
    has_duplicates-insert_sorted a (b ∷ bs) = ground (
      arith,
      has_duplicates-insert_sorted a bs,
      member-insert_sorted (fl.round8 b.1.price) a bs,
      eq_sym (fl.round8 a.1.price) (fl.round8 b.1.price),
    )

    member-sorted :
        (x : F) (as' : List (ℕ × Level F))
        → member x (level_prices (sorted before as')) ≡ member x (level_prices as')
    unfolding sorted member
    member-sorted x [] = refl
    member-sorted x (a ∷ as') =
        member-insert_sorted x a (sorted before as')
        ∙ ap (λ b. fl.eq x (fl.round8 a.1.price) || b) (member-sorted x as')

    has_duplicates-sorted :
        (as' : List (ℕ × Level F))
        → has_duplicates (level_prices (sorted before as')) ≡ has_duplicates (level_prices as')
    unfolding sorted has_duplicates
    has_duplicates-sorted [] = refl
    has_duplicates-sorted (a ∷ as') = ground (
      arith,
      has_duplicates-insert_sorted a (sorted before as'),
      member-sorted (fl.round8 a.1.price) as',
      has_duplicates-sorted as',
    )

  member-active_levels :
      (x : F) (ls : List (ℕ × Level F))
      → member x (level_prices (active_levels ls)) ≡ true
      → member x (level_prices ls) ≡ true
  unfolding active_levels member
  member-active_levels x [] h = h
  member-active_levels x (l ∷ ls) h = ground (arith, member-active_levels x ls)

  has_duplicates-active_levels :
      (ls : List (ℕ × Level F))
      → has_duplicates (level_prices ls) ≡ false
      → has_duplicates (level_prices (active_levels ls)) ≡ false
  unfolding active_levels has_duplicates
  has_duplicates-active_levels [] h = h
  has_duplicates-active_levels (l ∷ ls) h =
      ground (arith, has_duplicates-active_levels ls, member-active_levels (fl.round8 l.1.price) ls)

  level_prices-enumerate :
      (i : ℕ) (ls : List (Level F)) → level_prices (enumerate i ls) ≡ grid_price_set ls
  unfolding enumerate grid_price_set
  level_prices-enumerate i [] = refl
  level_prices-enumerate i (l ∷ ls) =
      ap (λ ps. fl.round8 l.price ∷ ps) (level_prices-enumerate (suc i) ls)

  sorted_grids-distinct :
      (ls : List (Level F))
      → has_duplicates (grid_price_set ls) ≡ false
      → has_duplicates (level_prices (sorted_grids ls)) ≡ false
  unfolding sorted_grids
  sorted_grids-distinct ls h =
      has_duplicates-sorted (nearer (center_index ls)) (active_levels (enumerate 0 ls))
      ∙ has_duplicates-active_levels (enumerate 0 ls)
          (ap has_duplicates (level_prices-enumerate 0 ls) ∙ h)

  sorted_grids-inside :
      (ls : List (Level F)) (x : F)
      → member x (level_prices (sorted_grids ls)) ≡ true
      → member x (grid_price_set ls) ≡ true
  unfolding sorted_grids
  sorted_grids-inside ls x h =
      ap (member x) (sym (level_prices-enumerate 0 ls))
      ∙ member-active_levels x (enumerate 0 ls)
          (sym (member-sorted (nearer (center_index ls)) x (active_levels (enumerate 0 ls))) ∙ h)

  -- Where no two levels share a rounded price, a round of placing cancels each order at most as
  -- often as it stands among the given orders: an order given once is never cancelled twice, be it
  -- as a duplicate, for its side, or for lying outside the grid.
  pub place_grid_orders-cancel_count :
      (k : ℕ) (e : Engine F) (limits : List (Limit F)) (d : Direction) {is : List (Intent F)}
      → has_duplicates (grid_price_set e.grid.levels) ≡ false
      → place_grid_orders e limits d ≡ ok is
      → cancel_count k is ≤ occurs k limits
  unfolding place_grid_orders
  place_grid_orders-cancel_count k e limits d {is} distinct h =
      let levels = e.grid.levels in
      let buckets = limits_by_price limits in
      let survivors = (split_buckets levels buckets).0 in
      let extras = (split_buckets levels buckets).1 in
      let outside = outside_limits (grid_price_set levels) survivors in
      elim (Result-cases (check_levels e survivors d (sorted_grids levels))) [
        | inl (x, failed) ↦ absurd (ground arith)
        | inr (middle, done) ↦
            let parts : is
                ≡ cancel_all_limits e CancelReason.duplicate extras
                  ++ (middle ++ cancel_all_limits e CancelReason.outside_grid outside) =
              ground arith in
            omega (
              arith,
              ap (cancel_count k) parts,
              cancel_count-append k (cancel_all_limits e CancelReason.duplicate extras)
                  (middle ++ cancel_all_limits e CancelReason.outside_grid outside),
              cancel_count-append k middle (cancel_all_limits e CancelReason.outside_grid outside),
              cancel_count-cancel_all_limits k e CancelReason.duplicate extras,
              cancel_count-cancel_all_limits k e CancelReason.outside_grid outside,
              check_levels-sum_at k e survivors d (sorted_grids levels) done,
              sum_at-inside_count o k (level_prices (sorted_grids levels)) survivors
                  (sorted_grids-distinct levels distinct),
              inside_count_mono k (level_prices (sorted_grids levels)) (grid_price_set levels)
                  survivors (sorted_grids-inside levels),
              inside_count-outside_limits k (grid_price_set levels) survivors,
              occurs-split_buckets k levels buckets,
              occurs-limits_by_price k limits,
            )
      ]
