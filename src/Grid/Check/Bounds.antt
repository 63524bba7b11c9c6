-- ===== src/Grid/Check/Bounds.antt =====
-- `bounds` beside the two scans `__min_grid` and `__max_grid` of
-- packages/gridcore/src/gridcore/grid.py.
use grid_bot_validation.Prelude.{
  ◌≡◌, refl, ap, sym, subst, true, false, ◌⊎◌, inl, inr, List, [], ◌∷◌, arith, Bool-cases,
}
use grid_bot_validation.Float.{Floats}
use grid_bot_validation.Float.Order.{IsOrdered, lt_asymm, lt_of_lt_le, not_lt_trans}
use grid_bot_validation.Outcome.{ok, err, Error}
use grid_bot_validation.Grid.Level.{Level, prices}
use grid_bot_validation.Grid.Check.{bounds, bounds_from, min_grid, max_grid, min_from, max_from}

module _ {F : Type 0} ⦃fl : Floats F⦄ where
  -- `p` is one of the prices.
  abbrev pub Among : F → List F → Type 0
  Among p [] = ⊥
  Among p (q ∷ qs) = (p ≡ q) ⊎ Among p qs

  -- None of the prices is below `lo`; none is above `hi`.
  abbrev pub NoneBelow : F → List F → Type 0
  NoneBelow lo [] = Unit {0}
  NoneBelow lo (q ∷ qs) = (fl.lt q lo ≡ false) × NoneBelow lo qs

  abbrev pub NoneAbove : F → List F → Type 0
  NoneAbove hi [] = Unit {0}
  NoneAbove hi (q ∷ qs) = (fl.lt hi q ≡ false) × NoneAbove hi qs

module _ {F : Type 0} ⦃fl : Floats F⦄ (o : IsOrdered fl) where
  -- The two prices are in order, which the `elif` relies on.
  bounds_from-min-max :
      (lo hi : F) (ls : List (Level F))
      → fl.lt hi lo ≡ false
      → bounds_from lo hi ls ≡ (min_from lo (prices ls), max_from hi (prices ls))
  unfolding bounds_from min_from max_from
  bounds_from-min-max lo hi [] h = refl
  bounds_from-min-max lo hi (l ∷ ls) h = elim (Bool-cases (fl.lt l.price lo)) [
    | inl below ↦
        let not_above : fl.lt hi l.price ≡ false =
          lt_asymm o l.price hi (lt_of_lt_le o l.price lo hi below h) in
        ground (arith, bounds_from-min-max l.price hi ls not_above)
    | inr inside ↦ elim (Bool-cases (fl.lt hi l.price)) [
      | inl above ↦ ground (arith, bounds_from-min-max lo l.price ls inside)
      | inr same ↦ ground (arith, bounds_from-min-max lo hi ls h)
    ]
  ]

  min_from-taken : (m x : F) (xs : List F) → fl.lt x m ≡ true → min_from m (x ∷ xs) ≡ min_from x xs
  unfolding min_from
  min_from-taken m x xs h = rw h

  min_from-kept : (m x : F) (xs : List F) → fl.lt x m ≡ false → min_from m (x ∷ xs) ≡ min_from m xs
  unfolding min_from
  min_from-kept m x xs h = rw h

  min_from-le-start : (m : F) (xs : List F) → fl.lt m (min_from m xs) ≡ false
  unfolding min_from
  min_from-le-start m [] = o.lt_irrefl m
  min_from-le-start m (x ∷ xs) = elim (Bool-cases (fl.lt x m)) [
    | inl less ↦
        rw less (not_lt_trans o (min_from x xs) x m (min_from-le-start x xs) (lt_asymm o x m less))
    | inr more ↦ rw more (min_from-le-start m xs)
  ]

  min_from-NoneBelow : (m : F) (xs : List F) → NoneBelow (min_from m xs) xs
  unfolding min_from
  min_from-NoneBelow m [] = tt
  min_from-NoneBelow m (x ∷ xs) = elim (Bool-cases (fl.lt x m)) [
    | inl less ↦
        subst (λ v. NoneBelow v (x ∷ xs)) (sym (min_from-taken m x xs less))
          (min_from-le-start x xs, min_from-NoneBelow x xs)
    | inr more ↦
        subst (λ v. NoneBelow v (x ∷ xs)) (sym (min_from-kept m x xs more))
          (
            not_lt_trans o (min_from m xs) m x (min_from-le-start m xs) more,
            min_from-NoneBelow m xs,
          )
  ]

  min_from-Among : (m : F) (xs : List F) → Among (min_from m xs) (m ∷ xs)
  unfolding min_from
  min_from-Among m [] = inl refl
  min_from-Among m (x ∷ xs) = elim (Bool-cases (fl.lt x m)) [
    | inl less ↦
        subst (λ v. Among v (m ∷ x ∷ xs)) (sym (min_from-taken m x xs less))
          (inr (min_from-Among x xs))
    | inr more ↦
        subst (λ v. Among v (m ∷ x ∷ xs)) (sym (min_from-kept m x xs more))
          (elim (min_from-Among m xs) [ inl e ↦ inl e | inr r ↦ inr (inr r) ])
  ]

  max_from-taken : (m x : F) (xs : List F) → fl.lt m x ≡ true → max_from m (x ∷ xs) ≡ max_from x xs
  unfolding max_from
  max_from-taken m x xs h = rw h

  max_from-kept : (m x : F) (xs : List F) → fl.lt m x ≡ false → max_from m (x ∷ xs) ≡ max_from m xs
  unfolding max_from
  max_from-kept m x xs h = rw h

  max_from-ge-start : (m : F) (xs : List F) → fl.lt (max_from m xs) m ≡ false
  unfolding max_from
  max_from-ge-start m [] = o.lt_irrefl m
  max_from-ge-start m (x ∷ xs) = elim (Bool-cases (fl.lt m x)) [
    | inl less ↦
        rw less (not_lt_trans o m x (max_from x xs) (lt_asymm o m x less) (max_from-ge-start x xs))
    | inr more ↦ rw more (max_from-ge-start m xs)
  ]

  max_from-NoneAbove : (m : F) (xs : List F) → NoneAbove (max_from m xs) xs
  unfolding max_from
  max_from-NoneAbove m [] = tt
  max_from-NoneAbove m (x ∷ xs) = elim (Bool-cases (fl.lt m x)) [
    | inl less ↦
        subst (λ v. NoneAbove v (x ∷ xs)) (sym (max_from-taken m x xs less))
          (max_from-ge-start x xs, max_from-NoneAbove x xs)
    | inr more ↦
        subst (λ v. NoneAbove v (x ∷ xs)) (sym (max_from-kept m x xs more))
          (
            not_lt_trans o x m (max_from m xs) more (max_from-ge-start m xs),
            max_from-NoneAbove m xs,
          )
  ]

  max_from-Among : (m : F) (xs : List F) → Among (max_from m xs) (m ∷ xs)
  unfolding max_from
  max_from-Among m [] = inl refl
  max_from-Among m (x ∷ xs) = elim (Bool-cases (fl.lt m x)) [
    | inl less ↦
        subst (λ v. Among v (m ∷ x ∷ xs)) (sym (max_from-taken m x xs less))
          (inr (max_from-Among x xs))
    | inr more ↦
        subst (λ v. Among v (m ∷ x ∷ xs)) (sym (max_from-kept m x xs more))
          (elim (max_from-Among m xs) [ inl e ↦ inl e | inr r ↦ inr (inr r) ])
  ]

  -- On a grid with a level `bounds` returns the pair of `__min_grid` and `__max_grid`: two of the
  -- prices, with no price below the first or above the second. On an empty grid all three raise.
  pub bounds-min-max :
      (ls : List (Level F))
      → ((lo : F) × (hi : F) × (bounds ls ≡ ok (lo, hi))
          × (min_grid ls ≡ ok lo)
          × (max_grid ls ≡ ok hi)
          × Among lo (prices ls)
          × Among hi (prices ls)
          × NoneBelow lo (prices ls)
          × NoneAbove hi (prices ls))
        ⊎ ((ls ≡ [])
            × (bounds ls ≡ err Error.empty_grid)
            × (min_grid ls ≡ err Error.empty_grid)
            × (max_grid ls ≡ err Error.empty_grid))
  unfolding bounds min_grid max_grid
  bounds-min-max [] = inr (refl, refl, refl, refl)
  bounds-min-max (l ∷ ls) =
      let ps = prices ls in
      inl (
        min_from l.price ps,
        max_from l.price ps,
        ap ok (bounds_from-min-max l.price l.price ls (o.lt_irrefl l.price)),
        refl,
        refl,
        min_from-Among l.price ps,
        max_from-Among l.price ps,
        (min_from-le-start l.price ps, min_from-NoneBelow l.price ps),
        (max_from-ge-start l.price ps, max_from-NoneAbove l.price ps),
      )
