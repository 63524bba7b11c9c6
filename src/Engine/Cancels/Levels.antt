-- ===== src/Engine/Cancels/Levels.antt =====
-- The cancels of the loop over the grid levels in `_place_grid_orders` of
-- packages/gridcore/src/gridcore/engine.py.
use grid_bot_validation.Prelude.{
  ℕ, ◌+◌, ◌≤◌, ◌≡◌, refl, sym, ap, subst, true, false, ◌==◌, some, List, [], ◌∷◌, ◌++◌, map, arith,
  if◌then◌else◌, Bool-cases, Option-cases, inl, inr,
}
use grid_bot_validation.Float.{Floats}
use grid_bot_validation.Float.Order.{IsOrdered}
use grid_bot_validation.Outcome.{ok, Result-cases}
use grid_bot_validation.Grid.Level.{Level}
use grid_bot_validation.Grid.Build.{member, has_duplicates}
use grid_bot_validation.Engine.Types.{Direction, Limit, Intent, CancelReason, Engine}
use grid_bot_validation.Engine.Place.{
  cancel_limit, cancel_all_limits, survivor_at, check_level, check_levels, outside_limits,
}
use grid_bot_validation.Engine.Cancels.Buckets.{one_if, occurs, occurs_survivors}

module _ {F : Type 0} where
  -- How often the intents cancel the order `k`.
  abbrev pub is_cancel_of : ℕ → Intent F → ℕ
  is_cancel_of k (Intent.place p) = 0
  is_cancel_of k (Intent.cancel c) = one_if (c.order_id == k)

  abbrev pub cancel_count : ℕ → List (Intent F) → ℕ
  cancel_count k [] = 0
  cancel_count k (x ∷ xs) = is_cancel_of k x + cancel_count k xs

  pub cancel_count-append :
      (k : ℕ) (xs ys : List (Intent F))
      → cancel_count k (xs ++ ys) ≡ cancel_count k xs + cancel_count k ys
  cancel_count-append k [] ys = omega arith
  cancel_count-append k (x ∷ xs) ys = omega (arith, cancel_count-append k xs ys)

  pub cancel_count-cancel_all_limits :
      (k : ℕ) (e : Engine F) (reason : CancelReason) (ls : List (Limit F))
      → cancel_count k (cancel_all_limits e reason ls) ≡ occurs k ls
  unfolding cancel_all_limits
  cancel_count-cancel_all_limits k e reason [] = refl
  cancel_count-cancel_all_limits k e reason (l ∷ ls) =
      omega (arith, cancel_count-cancel_all_limits k e reason ls)

module _ {F : Type 0} ⦃fl : Floats F⦄ where
  -- The survivors at one price, counted by their id.
  abbrev pub at_count : ℕ → F → List (F × Limit F) → ℕ
  at_count k price [] = 0
  at_count k price ((key, l) ∷ rest) =
      (if fl.eq key price then one_if (l.order_id == k) else 0) + at_count k price rest

  survivor_at-at_count :
      (k : ℕ) (price : F) (survivors : List (F × Limit F)) (l : Limit F)
      → survivor_at survivors price ≡ some l
      → one_if (l.order_id == k) ≤ at_count k price survivors
  unfolding survivor_at
  survivor_at-at_count k price [] l h = cc
  survivor_at-at_count k price ((key, m) ∷ rest) l h = elim (Bool-cases (fl.eq key price)) [
    | inl hit ↦ ground arith
    | inr miss ↦ ground (arith, survivor_at-at_count k price rest l)
  ]

  check_level-at_count :
      (k : ℕ) (e : Engine F) (survivors : List (F × Limit F)) (d : Direction) (l : ℕ × Level F)
      {is : List (Intent F)}
      → check_level e survivors d l ≡ ok is
      → cancel_count k is ≤ at_count k (fl.round8 l.1.price) survivors
  unfolding check_level cancel_limit
  check_level-at_count k e survivors d l h =
      elim (Option-cases (survivor_at survivors (fl.round8 l.1.price))) [
        | inl absent ↦ ground arith
        | inr (m, found) ↦
            ground (arith, survivor_at-at_count k (fl.round8 l.1.price) survivors m found)
      ]

  abbrev pub level_prices : List (ℕ × Level F) → List F
  level_prices = map λ l. fl.round8 l.1.price

  abbrev pub sum_at : ℕ → List F → List (F × Limit F) → ℕ
  sum_at k [] survivors = 0
  sum_at k (p ∷ ps) survivors = at_count k p survivors + sum_at k ps survivors

  pub check_levels_inversion :
      (e : Engine F) (survivors : List (F × Limit F)) (d : Direction) (l : ℕ × Level F)
      (ls : List (ℕ × Level F)) {is : List (Intent F)}
      → check_levels e survivors d (l ∷ ls) ≡ ok is
      → (now : List (Intent F)) × (later : List (Intent F)) × (check_level e survivors d l ≡ ok now)
        × (check_levels e survivors d ls ≡ ok later)
        × (is ≡ now ++ later)
  unfolding check_levels
  check_levels_inversion e survivors d l ls h = elim (Result-cases (check_level e survivors d l)) [
    | inl (x, failed) ↦ absurd (ground arith)
    | inr (now, first) ↦ elim (Result-cases (check_levels e survivors d ls)) [
      | inl (x, failed) ↦ absurd (ground arith)
      | inr (later, rest) ↦ (now, later, first, rest, ground arith)
    ]
  ]

  pub check_levels-sum_at :
      (k : ℕ) (e : Engine F) (survivors : List (F × Limit F)) (d : Direction)
      (ls : List (ℕ × Level F)) {is : List (Intent F)}
      → check_levels e survivors d ls ≡ ok is
      → cancel_count k is ≤ sum_at k (level_prices ls) survivors
  unfolding check_levels
  check_levels-sum_at k e survivors d [] h = ground arith
  check_levels-sum_at k e survivors d (l ∷ ls) h =
      let (now, later, first, rest, both) = check_levels_inversion e survivors d l ls h in
      omega (
        arith,
        ap (cancel_count k) both,
        cancel_count-append k now later,
        check_level-at_count k e survivors d l first,
        check_levels-sum_at k e survivors d ls rest,
      )

  -- The survivors whose price is one of `ps`, counted by their id.
  abbrev pub inside_count : ℕ → List F → List (F × Limit F) → ℕ
  inside_count k ps [] = 0
  inside_count k ps ((key, l) ∷ rest) =
      (if member key ps then one_if (l.order_id == k) else 0) + inside_count k ps rest

  pub inside_count_mono :
      (k : ℕ) (ps qs : List F) (survivors : List (F × Limit F))
      → ((x : F) → member x ps ≡ true → member x qs ≡ true)
      → inside_count k ps survivors ≤ inside_count k qs survivors
  inside_count_mono k ps qs [] h = omega arith
  inside_count_mono k ps qs ((key, l) ∷ rest) h =
      ground (arith, h key, inside_count_mono k ps qs rest h)

  pub inside_count-outside_limits :
      (k : ℕ) (ps : List F) (survivors : List (F × Limit F))
      → inside_count k ps survivors + occurs k (outside_limits ps survivors)
        ≡ occurs_survivors k survivors
  unfolding outside_limits
  inside_count-outside_limits k ps [] = refl
  inside_count-outside_limits k ps ((key, l) ∷ rest) =
      ground (arith, inside_count-outside_limits k ps rest)

  -- One survivor under all the prices: its weight, at each price that is its own.
  abbrev hits : F → ℕ → List F → ℕ
  hits key w [] = 0
  hits key w (p ∷ ps) = (if fl.eq key p then w else 0) + hits key w ps

  sum_at-nil : (k : ℕ) (ps : List F) → sum_at k ps [] ≡ 0
  sum_at-nil k [] = refl
  sum_at-nil k (p ∷ ps) = omega (arith, sum_at-nil k ps)

  sum_at-hits :
      (k : ℕ) (ps : List F) (key : F) (l : Limit F) (rest : List (F × Limit F))
      → sum_at k ps ((key, l) ∷ rest) ≡ hits key (one_if (l.order_id == k)) ps + sum_at k ps rest
  sum_at-hits k [] key l rest = refl
  sum_at-hits k (p ∷ ps) key l rest = ground (arith, sum_at-hits k ps key l rest)

module _ {F : Type 0} ⦃fl : Floats F⦄ (o : IsOrdered fl) where
  hits-absent : (key : F) (w : ℕ) (ps : List F) → member key ps ≡ false → hits key w ps ≡ 0
  unfolding member
  hits-absent key w [] h = refl
  hits-absent key w (p ∷ ps) h = ground (arith, hits-absent key w ps)

  hits-distinct :
      (key : F) (w : ℕ) (ps : List F)
      → has_duplicates ps ≡ false
      → hits key w ps ≤ (if member key ps then w else 0)
  unfolding member has_duplicates
  hits-distinct key w [] h = omega arith
  hits-distinct key w (p ∷ ps) h = elim (Bool-cases (fl.eq key p)) [
    | inl own ↦
        let absent : member key ps ≡ false =
          subst (λ x. member x ps ≡ false) (sym ((o.eq_iff key p).0 own)) (ground arith) in
        ground (arith, hits-absent key w ps absent)
    | inr other ↦ ground (arith, hits-distinct key w ps)
  ]

  pub sum_at-inside_count :
      (k : ℕ) (ps : List F) (survivors : List (F × Limit F))
      → has_duplicates ps ≡ false
      → sum_at k ps survivors ≤ inside_count k ps survivors
  sum_at-inside_count k ps [] h = omega (arith, sum_at-nil k ps)
  sum_at-inside_count k ps ((key, l) ∷ rest) h =
      let w = one_if (l.order_id == k) in
      ground (
        arith,
        sum_at-hits k ps key l rest,
        hits-distinct key w ps h,
        sum_at-inside_count k ps rest h,
      )
