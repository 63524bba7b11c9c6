-- ===== src/Grid/Build/Sorted.antt =====
-- A built grid under `is_grid_correct`: packages/gridcore/src/gridcore/grid.py, for arithmetic that
-- rounds monotonically.
use grid_bot_validation.Prelude.{
  ℕ, zero, suc, ◌/◌, ◌-◌, ◌≤◌, ◌≡◌, ap, sym, subst, ◌∙◌, true, false, inl, inr, List, [], ◌∷◌, ◌++◌,
  arith, replicate, Bool-cases,
}
use grid_bot_validation.Float.{Floats, int}
use grid_bot_validation.Float.Order.{IsOrdered, not_lt_trans, lt_of_lt_le, lt_asymm}
use grid_bot_validation.Outcome.{ok}
use grid_bot_validation.Grid.Level.{buy, sell, wait, Level, Grid, prices, sides, notify_change}
use grid_bot_validation.Grid.Build.{
  round_price, step_of, upper_levels, lower_levels, built_levels, member, has_duplicates,
  build_grid,
}
use grid_bot_validation.Grid.Build.Shape.{sides-built_levels}
use grid_bot_validation.Grid.Check.{is_grid_correct}
use grid_bot_validation.Grid.Check.Pattern.{Above, IsAscending, Zones, is_grid_correct_iff}
use grid_bot_validation.Grid.Check.Bounds.{NoneBelow}

-- What is asked of the arithmetic at one tick size and one pair of factors, `1 + step` and
-- `1 - step`: on prices that are not negative, rounding is stable, a step up does not lower the
-- rounded price, a step down does not raise it, and neither makes it negative.
pub record IsMonotone {F : Type 0} ⦃fl : Floats F⦄ (tick up down : F) : Type 0 where
  pub stable : (x : F) → round_price tick (round_price tick x) ≡ round_price tick x
  pub rises :
      (x : F)
      → fl.lt x (int 0) ≡ false
      → fl.lt (round_price tick (fl.mul x up)) (round_price tick x) ≡ false
  pub falls :
      (x : F)
      → fl.lt x (int 0) ≡ false
      → fl.lt (round_price tick x) (round_price tick (fl.mul x down)) ≡ false
  pub middle_nonneg : (x : F) → fl.lt x (int 0) ≡ false → fl.lt (round_price tick x) (int 0) ≡ false
  pub up_nonneg :
      (x : F) → fl.lt x (int 0) ≡ false → fl.lt (round_price tick (fl.mul x up)) (int 0) ≡ false
  pub down_nonneg :
      (x : F) → fl.lt x (int 0) ≡ false → fl.lt (round_price tick (fl.mul x down)) (int 0) ≡ false

module _ {F : Type 0} ⦃fl : Floats F⦄ (o : IsOrdered fl) where
  -- Each price is at most those that come after it.
  abbrev IsWeak : List F → Type 0
  IsWeak [] = Unit {0}
  IsWeak (x ∷ xs) = NoneBelow x xs × IsWeak xs

  NoneBelow-mono : (x y : F) (zs : List F) → fl.lt y x ≡ false → NoneBelow y zs → NoneBelow x zs
  NoneBelow-mono x y [] h a = tt
  NoneBelow-mono x y (z ∷ zs) h a = (not_lt_trans o x y z h a.0, NoneBelow-mono x y zs h a.1)

  not_member-Above : (x : F) (ys : List F) → member x ys ≡ false → NoneBelow x ys → Above fl x ys
  unfolding member
  not_member-Above x [] h a = tt
  not_member-Above x (y ∷ ys) h a = (
    elim (Bool-cases (fl.lt x y)) [
      | inl less ↦ less
      | inr more ↦ absurd (ground (arith, o.eq_of_not_lt x y more a.0, (o.eq_iff x y).1))
    ],
    not_member-Above x ys (ground arith) a.1,
  )

  IsWeak-IsAscending : (xs : List F) → has_duplicates xs ≡ false → IsWeak xs → IsAscending fl xs
  unfolding has_duplicates
  IsWeak-IsAscending [] h w = tt
  IsWeak-IsAscending (x ∷ xs) h w =
      (not_member-Above x xs (ground arith) w.0, IsWeak-IsAscending xs (ground arith) w.1)

  module _ (tick up down : F) (m : IsMonotone tick up down) where
    -- The upper prices: none below the price that they start from, none negative, in weak order.
    upper-IsWeak :
        (n : ℕ) (p : F)
        → fl.lt p (int 0) ≡ false
        → let ps = prices (upper_levels tick up p n) in
          NoneBelow (round_price tick p) ps × NoneBelow (int 0) ps × IsWeak ps
    unfolding upper_levels
    upper-IsWeak zero p h = (tt, tt, tt)
    upper-IsWeak (suc n) p h =
        let q = round_price tick (fl.mul p up) in
        let (above, nonneg, weak) = upper-IsWeak n q (m.up_nonneg p h) in
        let ps = prices (upper_levels tick up q n) in
        let above' : NoneBelow q ps = subst (λ x. NoneBelow x ps) (m.stable (fl.mul p up)) above in
        (
          (m.rises p h, NoneBelow-mono (round_price tick p) q ps (m.rises p h) above'),
          (m.up_nonneg p h, nonneg),
          (above', weak),
        )

    lower-IsWeak :
        (n : ℕ) (p : F) (above : List (Level F))
        → fl.lt p (int 0) ≡ false
        → NoneBelow (round_price tick p) (prices above)
        → NoneBelow (int 0) (prices above)
        → IsWeak (prices above)
        → let ps = prices (lower_levels tick down p n above) in NoneBelow (int 0) ps × IsWeak ps
    unfolding lower_levels
    lower-IsWeak zero p above h a z w = (z, w)
    lower-IsWeak (suc n) p above h a z w =
        let q = round_price tick (fl.mul p down) in
        let a' = NoneBelow-mono q (round_price tick p) (prices above) (m.falls p h) a in
        lower-IsWeak n q (record { side = buy; price = q } ∷ above) (m.down_nonneg p h)
          (subst (λ x. NoneBelow x (q ∷ prices above)) (sym (m.stable (fl.mul p down)))
            (o.lt_irrefl q, a'))
          (m.down_nonneg p h, z) (a', w)

  neg_inf-Above : (xs : List F) → NoneBelow (int 0) xs → Above fl fl.neg_inf xs
  neg_inf-Above [] z = tt
  neg_inf-Above (x ∷ xs) z =
      (lt_of_lt_le o fl.neg_inf (int 0) x o.neg_inf_negative z.0, neg_inf-Above xs z.1)

  module _ (g : Grid F)
      (m : IsMonotone g.tick_size (fl.add (int 1) (step_of g)) (fl.sub (int 1) (step_of g))) where
    built-IsWeak :
        (last_close : F)
        → fl.lt last_close (int 0) ≡ false
        → let ps = prices (built_levels g last_close) in NoneBelow (int 0) ps × IsWeak ps
    unfolding built_levels
    built-IsWeak last_close h =
        let half = g.grid_count / 2 in
        let up = fl.add (int 1) (step_of g) in
        let middle = round_price g.tick_size last_close in
        let (above, nonneg, weak) =
          upper-IsWeak g.tick_size up (fl.sub (int 1) (step_of g)) m half last_close h in
        lower-IsWeak g.tick_size up (fl.sub (int 1) (step_of g)) m half last_close
          (record { side = wait; price = middle } ∷ upper_levels g.tick_size up last_close half) h
          (o.lt_irrefl middle, above) (m.middle_nonneg last_close h, nonneg) (above, weak)

    positive-nonzero : (x : F) → fl.lt (int 0) x ≡ true → fl.eq x (int 0) ≡ false
    positive-nonzero x h = elim (Bool-cases (fl.eq x (int 0))) [
      | inl same ↦ absurd (cc (o.lt_irrefl x, (o.eq_iff x (int 0)).0 same))
      | inr other ↦ other
    ]

    built-Zones : (last_close : F) → 2 ≤ g.grid_count → Zones (sides (built_levels g last_close))
    built-Zones last_close count =
        let k = g.grid_count / 2 - 1 in
        let e : g.grid_count / 2 ≡ suc k = omega arith in
        (
          k,
          1,
          k,
          sides-built_levels g last_close ∙ ap (λ n. replicate n buy ++ wait ∷ replicate n sell) e,
        )

    -- A build around a positive price that raises no error leaves a correct grid, if the grid
    -- count is at least two and the arithmetic is monotone at the grid's tick and step.
    pub build_grid_correct :
        (last_close : F)
        → 2 ≤ g.grid_count
        → fl.lt (int 0) last_close ≡ true
        → (build_grid last_close g).0 ≡ ok tt
        → is_grid_correct (build_grid last_close g).1.levels ≡ true
    unfolding build_grid notify_change
    build_grid_correct last_close count positive done =
        let h : fl.lt last_close (int 0) ≡ false = lt_asymm o (int 0) last_close positive in
        let (nonneg, weak) = built-IsWeak last_close h in
        let ps = prices (built_levels g last_close) in
        let nonzero : fl.eq last_close (int 0) ≡ false = positive-nonzero last_close positive in
        let fresh : has_duplicates ps ≡ false = ground arith in
        let good : is_grid_correct (built_levels g last_close) ≡ true =
          (is_grid_correct_iff o (built_levels g last_close)).1 (
            neg_inf-Above ps nonneg,
            IsWeak-IsAscending ps fresh weak,
            built-Zones last_close count,
          ) in
        ground (arith, good)
