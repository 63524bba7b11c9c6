-- ===== src/Engine/Orders.antt =====
-- What is placed in one round of `_place_grid_orders` of packages/gridcore/src/gridcore/engine.py:
-- when a placement is justified, and the positions of the sorted levels.
pub mod Justified
pub mod Covered
use grid_bot_validation.Prelude.{
  ℕ, suc, ◌+◌, ◌≡◌, refl, sym, ap, subst, ◌∙◌, ◌⊎◌, inl, inr, Bool, true, false, ◌||◌, not, Option,
  none, some, List, [], ◌∷◌, ◌++◌, arith, if◌then◌else◌, get_elem?, Bool-cases, Option-cases,
}
use grid_bot_validation.Float.{Floats, int}
use grid_bot_validation.Float.Order.{IsOrdered}
use grid_bot_validation.Outcome.{Result, ok, err, Result-cases}
use grid_bot_validation.Grid.Level.{GridSideType, buy, sell, wait, Level, is_side}
use grid_bot_validation.Engine.Types.{
  Direction, Limit, Identity, PlaceLimitIntent, CancelReason, Intent, Engine,
}
use grid_bot_validation.Engine.Survivors.{
  insert_sorted, sorted, enumerate, limits_by_price, split_buckets,
}
use grid_bot_validation.Engine.Place.{
  create, not_eligible, reduce_only_of, cancel_limit, cancel_all_limits, placed, diff_percent,
  create_place_intent, check_level, check_levels, active_levels, sorted_grids, survivor_at,
  place_grid_orders, outside_limits, grid_price_set, nearer, center_index,
}
use grid_bot_validation.Engine.Cancels.Levels.{check_levels_inversion}

module _ {F : Type 0} ⦃fl : Floats F⦄ where
  -- The market price stands on the right side of a level and far enough from it: the test of
  -- `_create_place_intent` in its strict form.
  pub record IsTradable (grid_step last_close : F) (l : Level F) : Type 0 where
    pub not_wait : is_side l.side wait ≡ false
    pub below : l.side ≡ buy → fl.lt (int 0) (diff_percent last_close l.price) ≡ true
    pub above : l.side ≡ sell → fl.lt (diff_percent last_close l.price) (int 0) ≡ true
    pub far : fl.lt (fl.div grid_step (int 2)) (fl.abs (diff_percent last_close l.price)) ≡ true

  -- The placement is for the level of the grid at its position, which may be traded at the last
  -- price; it closes exactly where the hedge map says so, and carries the digest of its identity.
  pub record IsJustified (e : Engine F) (d : Direction) (p : PlaceLimitIntent F) : Type 0 where
    pub at_level :
        get_elem? e.grid.levels p.grid_level ≡ some (record { side = p.side; price = p.price })
    pub last_close : F
    pub known : e.last_close ≡ some last_close
    pub tradable :
        IsTradable e.grid.grid_step last_close (record { side = p.side; price = p.price })
    pub closes : p.reduce_only ≡ reduce_only_of d p.side
    pub same_direction : p.direction ≡ d
    pub identity :
        p.client_order_id
        ≡ e.digest (record {
          strat_id = e.strat_id;
          symbol = e.symbol;
          side = p.side;
          price = p.price;
          direction = d;
        })

  -- Every placement among the intents is justified.
  abbrev pub AllJustified : Engine F → Direction → List (Intent F) → Type 0
  AllJustified e d [] = Unit {0}
  AllJustified e d (Intent.cancel c ∷ xs) = AllJustified e d xs
  AllJustified e d (Intent.place p ∷ xs) = IsJustified e d p × AllJustified e d xs

  pub AllJustified-append :
      (e : Engine F) (d : Direction) (xs ys : List (Intent F))
      → AllJustified e d xs
      → AllJustified e d ys
      → AllJustified e d (xs ++ ys)
  AllJustified-append e d [] ys a b = b
  AllJustified-append e d (Intent.cancel c ∷ xs) ys a b = AllJustified-append e d xs ys a b
  AllJustified-append e d (Intent.place p ∷ xs) ys a b = (a.0, AllJustified-append e d xs ys a.1 b)

  pub AllJustified-cancel_all_limits :
      (e : Engine F) (d : Direction) (reason : CancelReason) (ls : List (Limit F))
      → AllJustified e d (cancel_all_limits e reason ls)
  unfolding cancel_all_limits cancel_limit
  AllJustified-cancel_all_limits e d reason [] = tt
  AllJustified-cancel_all_limits e d reason (l ∷ ls) = AllJustified-cancel_all_limits e d reason ls

  -- The level of the pair stands at its position in the grid.
  abbrev pub AllAt : List (Level F) → List (ℕ × Level F) → Type 0
  AllAt levels [] = Unit {0}
  AllAt levels ((i, l) ∷ ls) = (get_elem? levels i ≡ some l) × AllAt levels ls

  AllAt-insert_sorted :
      (levels : List (Level F)) (before : ℕ × Level F → ℕ × Level F → Bool) (a : ℕ × Level F)
      (bs : List (ℕ × Level F))
      → AllAt levels (a ∷ bs)
      → AllAt levels (insert_sorted before a bs)
  unfolding insert_sorted
  AllAt-insert_sorted levels before a [] h = h
  AllAt-insert_sorted levels before a (b ∷ bs) h = elim (Bool-cases (before b a)) [
    | inl later ↦ rw later (h.1.0, AllAt-insert_sorted levels before a bs (h.0, h.1.1))
    | inr here ↦ rw here h
  ]

  AllAt-sorted :
      (levels : List (Level F)) (before : ℕ × Level F → ℕ × Level F → Bool)
      (as' : List (ℕ × Level F))
      → AllAt levels as'
      → AllAt levels (sorted before as')
  unfolding sorted
  AllAt-sorted levels before [] h = h
  AllAt-sorted levels before (a ∷ as') h =
      AllAt-insert_sorted levels before a (sorted before as')
        (h.0, AllAt-sorted levels before as' h.1)

  AllAt-active_levels :
      (levels : List (Level F)) (ls : List (ℕ × Level F))
      → AllAt levels ls
      → AllAt levels (active_levels ls)
  unfolding active_levels
  AllAt-active_levels levels [] h = h
  AllAt-active_levels levels (l ∷ ls) h = elim (Bool-cases (is_side l.1.side wait)) [
    | inl waits ↦ rw waits (AllAt-active_levels levels ls h.1)
    | inr trades ↦ rw trades (h.0, AllAt-active_levels levels ls h.1)
  ]

  AllAt-enumerate :
      (levels : List (Level F)) (i : ℕ) (rest : List (Level F))
      → ((n : ℕ) → get_elem? levels (i + n) ≡ get_elem? rest n)
      → AllAt levels (enumerate i rest)
  unfolding enumerate
  AllAt-enumerate levels i [] h = tt
  AllAt-enumerate levels i (l ∷ ls) h = (
    ap (get_elem? levels) (omega arith) ∙ h 0,
    AllAt-enumerate levels (suc i) ls (λ n. ap (get_elem? levels) (omega arith) ∙ h (suc n)),
  )

  pub AllAt-sorted_grids : (levels : List (Level F)) → AllAt levels (sorted_grids levels)
  unfolding sorted_grids
  AllAt-sorted_grids levels = AllAt-sorted levels (nearer (center_index levels)) _ (
      AllAt-active_levels levels _
        (AllAt-enumerate levels 0 levels (λ n. ap (get_elem? levels) (omega arith))))
