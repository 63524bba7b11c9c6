-- ===== src/Grid/Update/Assign.antt =====
-- `_assign_sides` level by level: packages/gridcore/src/gridcore/grid.py.
use grid_bot_validation.Prelude.{
  ◌≡◌, refl, sym, ap₂, subst, false, List, [], ◌∷◌, arith, inl, inr, Bool-cases,
}
use grid_bot_validation.Float.{Floats}
use grid_bot_validation.Float.Order.{IsOrdered, lt_asymm, lt_of_le_lt}
use grid_bot_validation.Grid.Level.{buy, sell, Level, prices}
use grid_bot_validation.Grid.Check.Pattern.{Above, IsAscending}
use grid_bot_validation.Grid.Update.{is_too_close, assign_side, assign_sides}

module _ {F : Type 0} ⦃fl : Floats F⦄ where
  prices-assign_sides :
      (step c f : F) (ls : List (Level F)) → prices (assign_sides step c f ls) ≡ prices ls
  unfolding assign_sides assign_side
  prices-assign_sides step c f [] = refl
  prices-assign_sides step c f (l ∷ ls) =
      ap₂ (λ x xs. x ∷ xs) (ground arith) (prices-assign_sides step c f ls)

  -- No BUY lies above the market price, and no SELL below it.
  abbrev pub OnSide : (last_close : F) → Level F → Type 0
  OnSide last_close l =
      (l.side ≡ buy → fl.lt last_close l.price ≡ false)
      × (l.side ≡ sell → fl.lt l.price last_close ≡ false)

  abbrev pub AllOnSide : (last_close : F) → List (Level F) → Type 0
  AllOnSide last_close [] = Unit {0}
  AllOnSide last_close (l ∷ ls) = OnSide last_close l × AllOnSide last_close ls

  abbrev pub NoBuy : List (Level F) → Type 0
  NoBuy [] = Unit {0}
  NoBuy (l ∷ ls) = (l.side ≡ buy → ⊥) × NoBuy ls

  -- After a SELL there is no BUY.
  abbrev pub BuysFirst : List (Level F) → Type 0
  BuysFirst [] = Unit {0}
  BuysFirst (l ∷ ls) = (l.side ≡ sell → NoBuy ls) × BuysFirst ls

module _ {F : Type 0} ⦃fl : Floats F⦄ (o : IsOrdered fl) where
  assign_side-OnSide : (step c f : F) (l : Level F) → OnSide c (assign_side step c f l)
  unfolding assign_side
  assign_side-OnSide step c f l = elim (Bool-cases (is_too_close step l.price f)) [
    | inl close ↦ rw close ((λ e. cc e), (λ e. cc e))
    | inr away ↦ elim (Bool-cases (fl.lt c l.price)) [
      | inl above ↦ rw (away, above) ((λ e. cc e), (λ e. lt_asymm o c l.price above))
      | inr no_more ↦ elim (Bool-cases (fl.lt l.price c)) [
        | inl below ↦ rw (away, no_more, below) ((λ e. no_more), (λ e. cc e))
        | inr level ↦ rw (away, no_more, level) ((λ e. no_more), (λ e. level))
      ]
    ]
  ]

  assign_sides-AllOnSide :
      (step c f : F) (ls : List (Level F)) → AllOnSide c (assign_sides step c f ls)
  unfolding assign_sides
  assign_sides-AllOnSide step c f [] = tt
  assign_sides-AllOnSide step c f (l ∷ ls) =
      (assign_side-OnSide step c f l, assign_sides-AllOnSide step c f ls)

  -- Above a price that is not below the market there is no BUY.
  Above-NoBuy :
      (c p : F) (ls : List (Level F))
      → fl.lt p c ≡ false
      → Above fl p (prices ls)
      → AllOnSide c ls
      → NoBuy ls
  Above-NoBuy c p [] h a s = tt
  Above-NoBuy c p (l ∷ ls) h a s =
      (λ bought. cc (lt_of_le_lt o c p l.price h a.0, s.0.0 bought), Above-NoBuy c p ls h a.1 s.1)

  AllOnSide-BuysFirst :
      (c : F) (ls : List (Level F)) → IsAscending fl (prices ls) → AllOnSide c ls → BuysFirst ls
  AllOnSide-BuysFirst c [] a s = tt
  AllOnSide-BuysFirst c (l ∷ ls) a s =
      (λ sold. Above-NoBuy c l.price ls (s.0.1 sold) a.0 s.1, AllOnSide-BuysFirst c ls a.1 s.1)

  -- In a grid whose prices ascend, whatever the fill price, the step and the sides before: the assignment
  -- keeps the prices, and after it no BUY lies above the market price, no SELL below it, and no BUY comes
  -- after a SELL.
  pub assign_sides-BuysFirst :
      (step last_close fill_price : F) (ls : List (Level F))
      → IsAscending fl (prices ls)
      → let assigned = assign_sides step last_close fill_price ls in
        (prices assigned ≡ prices ls) × AllOnSide last_close assigned × BuysFirst assigned
  assign_sides-BuysFirst step c f ls a =
      let same = prices-assign_sides step c f ls in
      let sided = assign_sides-AllOnSide step c f ls in
      (
        same,
        sided,
        AllOnSide-BuysFirst c (assign_sides step c f ls) (subst (IsAscending fl) (sym same) a)
            sided,
      )
