-- ===== src/Engine/Orders/Covered.antt =====
-- The levels that may be traded, followed through the loop of `_place_grid_orders` of
-- packages/gridcore/src/gridcore/engine.py.
use grid_bot_validation.Prelude.{
  ℕ, zero, suc, ◌+◌, ◌≡◌, refl, sym, ap, subst, ◌∙◌, ◌⊎◌, inl, inr, Bool, true, false, Option, some,
  List, [], ◌∷◌, ◌++◌, arith, get_elem?, Bool-cases,
}
use grid_bot_validation.Float.{Floats, int}
use grid_bot_validation.Float.Order.{IsOrdered}
use grid_bot_validation.Outcome.{ok}
use grid_bot_validation.Grid.Level.{GridSideType, buy, sell, wait, Level, is_side}
use grid_bot_validation.Engine.Types.{
  Direction, Limit, PlaceLimitIntent, CancelReason, Intent, Engine,
}
use grid_bot_validation.Engine.Survivors.{
  insert_sorted, sorted, enumerate, limits_by_price, split_buckets,
}
use grid_bot_validation.Engine.Place.{
  create, not_eligible, reduce_only_of, cancel_limit, cancel_all_limits, placed, diff_percent,
  create_place_intent, check_level, check_levels, active_levels, sorted_grids, survivor_at,
  place_grid_orders, outside_limits, grid_price_set, nearer, center_index,
}
use grid_bot_validation.Engine.Cancels.Levels.{check_levels_inversion}
use grid_bot_validation.Engine.Orders.{IsTradable}
use grid_bot_validation.Engine.Orders.Justified.{check_level_inversion, place_grid_orders_inversion}

side_cases : (s : GridSideType) → (s ≡ buy) ⊎ (s ≡ sell) ⊎ (s ≡ wait)
side_cases buy = inl refl
side_cases sell = inr (inl refl)
side_cases wait = inr (inr refl)

module _ {A : Type 0} where
  -- The list has the element.
  abbrev pub Has : A → List A → Type 0
  Has x [] = ⊥
  Has x (y ∷ ys) = (y ≡ x) ⊎ Has x ys

  Has-append_left : (x : A) (xs ys : List A) → Has x xs → Has x (xs ++ ys)
  Has-append_left x [] ys h = elim h [ ]
  Has-append_left x (y ∷ xs) ys (inl here) = inl here
  Has-append_left x (y ∷ xs) ys (inr there) = inr (Has-append_left x xs ys there)

  Has-append_right : (x : A) (xs ys : List A) → Has x ys → Has x (xs ++ ys)
  Has-append_right x [] ys h = h
  Has-append_right x (y ∷ xs) ys h = inr (Has-append_right x xs ys h)

  Has-insert_sorted :
      (before : A → A → Bool) (x a : A) (bs : List A)
      → Has x (a ∷ bs)
      → Has x (insert_sorted before a bs)
  unfolding insert_sorted
  Has-insert_sorted before x a [] h = h
  Has-insert_sorted before x a (b ∷ bs) h = elim (Bool-cases (before b a)) [
    | inl later ↦ rw later (elim h [
      | inl new ↦ inr (Has-insert_sorted before x a bs (inl new))
      | inr old ↦ elim old [
        | inl here ↦ inl here
        | inr there ↦ inr (Has-insert_sorted before x a bs (inr there))
      ]
    ])
    | inr first ↦ rw first h
  ]

  Has-sorted :
      (before : A → A → Bool) (x : A) (as' : List A) → Has x as' → Has x (sorted before as')
  unfolding sorted
  Has-sorted before x [] h = elim h [ ]
  Has-sorted before x (a ∷ as') (inl here) =
      Has-insert_sorted before x a (sorted before as') (inl here)
  Has-sorted before x (a ∷ as') (inr there) =
      Has-insert_sorted before x a (sorted before as') (inr (Has-sorted before x as' there))

module _ {F : Type 0} where
  Has-enumerate :
      (i : ℕ) (ls : List (Level F)) (n : ℕ) (l : Level F)
      → get_elem? ls n ≡ some l
      → Has (i + n, l) (enumerate i ls)
  unfolding enumerate
  Has-enumerate i [] n l h = absurd (cc h)
  Has-enumerate i (k ∷ ls) zero l h = inl (ground (arith, h))
  Has-enumerate i (k ∷ ls) (suc n) l h = inr (
      subst (λ m. Has (m, l) (enumerate (suc i) ls)) (omega arith) (Has-enumerate (suc i) ls n l h))

  Has-active_levels :
      (ls : List (ℕ × Level F)) (x : ℕ × Level F)
      → is_side x.1.side wait ≡ false
      → Has x ls
      → Has x (active_levels ls)
  unfolding active_levels
  Has-active_levels [] x trades h = elim h [ ]
  Has-active_levels (k ∷ ls) x trades (inl here) =
      let active : is_side k.1.side wait ≡ false = ap (λ y. is_side y.1.side wait) here ∙ trades in
      rw active (inl here)
  Has-active_levels (k ∷ ls) x trades (inr there) = elim (Bool-cases (is_side k.1.side wait)) [
    | inl waits ↦ rw waits (Has-active_levels ls x trades there)
    | inr active ↦ rw active (inr (Has-active_levels ls x trades there))
  ]

module _ {F : Type 0} ⦃fl : Floats F⦄ where
  check_levels-Has :
      (e : Engine F) (survivors : List (F × Limit F)) (d : Direction) (ls : List (ℕ × Level F))
      (x : ℕ × Level F) {is : List (Intent F)}
      → Has x ls
      → check_levels e survivors d ls ≡ ok is
      → (now : List (Intent F)) × (check_level e survivors d x ≡ ok now)
        × ((i : Intent F) → Has i now → Has i is)
  check_levels-Has e survivors d [] x h done = elim h [ ]
  check_levels-Has e survivors d (l ∷ ls) x {is} (inl here) done =
      let (now, later, first, rest, both) = check_levels_inversion e survivors d l ls done in
      (
        now,
        subst (λ y. check_level e survivors d y ≡ ok now) here first,
        λ i m. subst (Has i) (sym both) (Has-append_left i now later m),
      )
  check_levels-Has e survivors d (l ∷ ls) x {is} (inr there) done =
      let (now, later, first, rest, both) = check_levels_inversion e survivors d l ls done in
      let (own, its, inside) = check_levels-Has e survivors d ls x there rest in
      (own, its, λ i m. subst (Has i) (sym both) (Has-append_right i now later (inside i m)))

  Has-sorted_grids :
      (ls : List (Level F)) (n : ℕ) (l : Level F)
      → get_elem? ls n ≡ some l
      → is_side l.side wait ≡ false
      → Has (n, l) (sorted_grids ls)
  unfolding sorted_grids
  Has-sorted_grids ls n l at trades =
      Has-sorted (nearer (center_index ls)) (n, l) (active_levels (enumerate 0 ls))
        (Has-active_levels (enumerate 0 ls) (n, l) trades
          (subst (λ m. Has (m, l) (enumerate 0 ls)) (omega arith) (Has-enumerate 0 ls n l at)))

module _ {F : Type 0} ⦃fl : Floats F⦄ (o : IsOrdered fl) where
  IsTradable-eligible :
      (step c : F) (l : Level F)
      → IsTradable step c l
      → not_eligible l.side (diff_percent c l.price) (fl.div step (int 2)) ≡ false
  IsTradable-eligible step c l t =
      let diff = diff_percent c l.price in
      elim (side_cases l.side) [
        | inl b ↦ ground (
          arith,
          t.far,
          t.below b,
          o.le-eq-not-lt diff (int 0),
          o.le-eq-not-lt (fl.abs diff) (fl.div step (int 2)),
        )
        | inr other ↦ elim other [
          | inl s ↦ ground (
            arith,
            t.far,
            t.above s,
            o.le-eq-not-lt (int 0) diff,
            o.le-eq-not-lt (fl.abs diff) (fl.div step (int 2)),
          )
          | inr w ↦ absurd (ground (arith, t.not_wait))
        ]
      ]

  create_place_intent-tradable :
      (e : Engine F) (l : Level F) (d : Direction) (i : ℕ) (c : F) {p : Option (PlaceLimitIntent F)}
      → e.last_close ≡ some c
      → IsTradable e.grid.grid_step c l
      → create_place_intent e l d i ≡ ok p
      → p ≡ some (create e l.side l.price i d (reduce_only_of d l.side))
  unfolding create_place_intent
  create_place_intent-tradable e l d i c known t made =
      ground (arith, t.not_wait, IsTradable-eligible e.grid.grid_step c l t)

  -- In a round that does not raise, every level of the grid that may be traded at the last price
  -- has an order: the order that was kept at its rounded price has the level's side, or else the
  -- level's placement is among the intents.
  pub place_grid_orders-covers :
      (e : Engine F) (limits : List (Limit F)) (d : Direction) (i : ℕ) (l : Level F) (c : F)
      {is : List (Intent F)}
      → get_elem? e.grid.levels i ≡ some l
      → e.last_close ≡ some c
      → IsTradable e.grid.grid_step c l
      → place_grid_orders e limits d ≡ ok is
      → ((kept : Limit F) × (survivor_at
              (split_buckets e.grid.levels (limits_by_price limits)).0
              (fl.round8 l.price)
            ≡ some kept)
          × (is_side kept.side l.side ≡ true))
        ⊎ Has (Intent.place (create e l.side l.price i d (reduce_only_of d l.side))) is
  place_grid_orders-covers e limits d i l c {is} at known t done =
      let levels = e.grid.levels in
      let survivors = (split_buckets levels (limits_by_price limits)).0 in
      let extras =
        cancel_all_limits e CancelReason.duplicate
          (split_buckets levels (limits_by_price limits)).1 in
      let outside =
        cancel_all_limits e CancelReason.outside_grid
          (outside_limits (grid_price_set levels) survivors) in
      let wanted = Intent.place (create e l.side l.price i d (reduce_only_of d l.side)) in
      let (middle, looped, parts) = place_grid_orders_inversion e limits d done in
      let (now, own, inside) =
        check_levels-Has e survivors d (sorted_grids levels) (i, l)
          (Has-sorted_grids levels i l at t.not_wait) looped in
      let lift : Has wanted now → Has wanted is = λ m. subst (Has wanted) (sym parts) (
        Has-append_right wanted extras (middle ++ outside)
          (Has-append_left wanted middle outside (inside wanted m))) in
      elim (check_level_inversion e survivors d (i, l) own) [
        | inl (kept, live, fits, nothing) ↦ inl (kept, live, fits)
        | inr (p, made, shape) ↦
            let same = create_place_intent-tradable e l d i c known t made in
            elim shape [
              | inl alone ↦
                  inr (lift (subst (Has wanted) (sym (alone ∙ ap placed same)) (inl refl)))
              | inr (limit, after_cancel) ↦
                  let mismatch = cancel_limit e CancelReason.side_mismatch limit in
                  inr (
                    lift (
                      subst (Has wanted) (sym (after_cancel ∙ ap (λ q. mismatch ∷ placed q) same))
                        (inr (inl refl))))
            ]
      ]
