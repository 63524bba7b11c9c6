-- ===== src/Grid/Build/Shape.antt =====
-- How many levels a build makes, and of which sides, whatever the arithmetic.
use grid_bot_validation.Prelude.{
  ℕ, zero, suc, ◌+◌, ◌*◌, ◌/◌, ◌≡◌, refl, ap, ◌∙◌, List, ◌∷◌, ◌++◌, arith, length, replicate,
  length-append, length-replicate, length-map,
}
use grid_bot_validation.Float.{Floats}
use grid_bot_validation.Grid.Level.{buy, sell, wait, Level, Grid, sides}
use grid_bot_validation.Grid.Build.{upper_levels, lower_levels, built_levels}

replicate-snoc {ℓ} :
    {A : Type ℓ} (n : ℕ) (a : A) (xs : List A) → replicate n a ++ a ∷ xs ≡ replicate (suc n) a ++ xs
replicate-snoc zero a xs = refl
replicate-snoc (suc n) a xs = ap (◌∷◌ a) (replicate-snoc n a xs)

module _ {F : Type 0} ⦃fl : Floats F⦄ where
  sides-upper_levels :
      (n : ℕ) (tick factor price : F) → sides (upper_levels tick factor price n) ≡ replicate n sell
  unfolding upper_levels
  sides-upper_levels zero tick factor price = refl
  sides-upper_levels (suc n) tick factor price = ap (◌∷◌ sell) (sides-upper_levels n tick factor _)

  sides-lower_levels :
      (n : ℕ) (tick factor price : F) (above : List (Level F))
      → sides (lower_levels tick factor price n above) ≡ replicate n buy ++ sides above
  unfolding lower_levels
  sides-lower_levels zero tick factor price above = refl
  sides-lower_levels (suc n) tick factor price above =
      sides-lower_levels n tick factor _ _ ∙ replicate-snoc n buy (sides above)

  -- The built levels are half the grid count of BUY, one WAIT, and half the grid count of SELL.
  pub sides-built_levels :
      (g : Grid F) (last_close : F)
      → let half = g.grid_count / 2 in
        sides (built_levels g last_close) ≡ replicate half buy ++ wait ∷ replicate half sell
  unfolding built_levels
  sides-built_levels g last_close =
      let half = g.grid_count / 2 in
      sides-lower_levels half _ _ last_close _
      ∙ ap (λ xs. replicate half buy ++ wait ∷ xs) (sides-upper_levels half _ _ last_close)

  -- A build makes `2 * (grid_count // 2) + 1` levels: one more than an even grid count.
  pub length-built_levels :
      (g : Grid F) (last_close : F)
      → length (built_levels g last_close) ≡ 2 * (g.grid_count / 2) + 1
  length-built_levels g last_close =
      let half = g.grid_count / 2 in
      omega (
        arith,
        length-map (built_levels g last_close) (λ l. l.side),
        ap length (sides-built_levels g last_close),
        length-append (replicate half buy) (wait ∷ replicate half sell),
        length-replicate half buy,
        length-replicate half sell,
      )
