-- ===== src/Engine/Stamped/GridSteps.antt =====
-- What the operations of the grid tell `on_change`: packages/gridcore/src/gridcore/grid.py.
use grid_bot_validation.Prelude.{refl, inl, inr, Option, none, some, [], arith, Bool-cases}
use grid_bot_validation.Float.{Floats, int}
use grid_bot_validation.Outcome.{◌>>◌, modify}
use grid_bot_validation.Grid.Level.{Grid, notify_change, prices}
use grid_bot_validation.Grid.Build.{
  build_grid, rebuild_grid, has_duplicates, built_levels, round_price,
}
use grid_bot_validation.Grid.Update.{
  update_grid, rebuild_outside, is_outside, assign_sides, center_grid, shift_up, shift_down,
}
use grid_bot_validation.Engine.Stamped.{
  IsStamping, still, next, notify_change-IsStamping, bind-AllStamping,
}

module _ {F : Type 0} ⦃fl : Floats F⦄ where
  pub build_grid-IsStamping : (p : F) (g : Grid F) → IsStamping g (build_grid p g).1
  unfolding build_grid
  build_grid-IsStamping p g =
      let g' = record g {
        levels = built_levels g p;
        original_anchor_price = some (round_price g.tick_size p);
      } in
      elim (Bool-cases (fl.eq p (int 0))) [
        | inl zero_price ↦ rw zero_price (still g g refl refl)
        | inr priced ↦ elim (Bool-cases (has_duplicates (prices g'.levels))) [
          | inl twice ↦ rw (priced, twice) (still g g' refl refl)
          | inr once ↦
              rw (priced, once)
                (next g g' (notify_change g') (still g g' refl refl) (notify_change-IsStamping g'))
        ]
      ]

  rebuild_grid-IsStamping : (p : F) (g : Grid F) → IsStamping g (rebuild_grid p g).1
  unfolding rebuild_grid
  rebuild_grid-IsStamping p g =
      let g' = record g { levels = [] } in
      next g g' (build_grid p g').1 (still g g' refl refl) (build_grid-IsStamping p g')

  center_grid-IsStamping : (g : Grid F) → IsStamping g (center_grid g).1
  unfolding center_grid shift_up shift_down
  center_grid-IsStamping g = still g (center_grid g).1 (ground arith) (ground arith)

  rebuild_outside-IsStamping : (p : F) (g : Grid F) → IsStamping g (rebuild_outside p g).1
  unfolding rebuild_outside
  rebuild_outside-IsStamping p g = elim (Bool-cases (is_outside p g.levels)) [
    | inl left ↦ rw left (rebuild_grid-IsStamping p g)
    | inr inside ↦ rw inside (still g g refl refl)
  ]

  pub update_grid-IsStamping :
      (fill last_close : Option F) (g : Grid F) → IsStamping g (update_grid fill last_close g).1
  unfolding update_grid
  update_grid-IsStamping none last_close g = still g g refl refl
  update_grid-IsStamping (some q) none g = still g g refl refl
  update_grid-IsStamping (some q) (some p) g =
      let assign : Grid F → Grid F =
        λ g'. record g' { levels = assign_sides g'.grid_step p q g'.levels } in
      let same : Grid F → Grid F = λ g'. g' in
      bind-AllStamping same (rebuild_outside p)
        (λ _. modify assign >> (center_grid >> modify notify_change)) (rebuild_outside-IsStamping p)
        (λ _.
          bind-AllStamping same (modify assign) (λ _. center_grid >> modify notify_change)
            (λ g'. still g' (assign g') refl refl)
            (λ _.
              bind-AllStamping same center_grid (λ _. modify notify_change) center_grid-IsStamping
                (λ _. notify_change-IsStamping)))
        g
