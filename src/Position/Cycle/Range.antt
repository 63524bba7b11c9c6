-- ===== src/Position/Cycle/Range.antt =====
-- The values of the multipliers after an update of apps/gridbot/src/gridbot/runner.py.
use grid_bot_validation.Prelude.{◌≡◌, refl, ◌⊎◌, inl, inr, Bool, true, Option}
use grid_bot_validation.Float.{Floats, int, lit}
use grid_bot_validation.Outcome.{ok}
use grid_bot_validation.Position.{DirectionType, SideType, PositionState, Position}
use grid_bot_validation.Position.Cycle.{Book, update_multipliers}
use grid_bot_validation.Position.Cycle.Fit.{IsClosed}
use grid_bot_validation.Position.Cycle.FitBook.{update_multipliers-IsFitBook}

module _ {F : Type 0} ⦃fl : Floats F⦄ where
  -- 1, 2, 1.5 or 0.5
  abbrev pub IsListed : F → Type 0
  IsListed x = (x ≡ int 1) ⊎ (x ≡ int 2) ⊎ (x ≡ lit 15 10) ⊎ (x ≡ lit 5 10)

  abbrev pub BothListed : Position F → Type 0
  BothListed p = IsListed p.amount_multiplier.buy_mult × IsListed p.amount_multiplier.sell_mult

  -- An update of a linked pair never raises, and leaves each of the four multipliers at 1, 2, 1.5 or
  -- 0.5, whatever they were before.
  pub update_multipliers-BothListed :
      (low_balance : Bool) (ls ss : Option (PositionState F)) (price : F) (b : Book F)
      → b.long_position.direction ≡ DirectionType.long
      → b.short_position.direction ≡ DirectionType.short
      → let (r, b') = update_multipliers ls ss price low_balance b in
        (r ≡ ok tt) × BothListed b'.long_position × BothListed b'.short_position
  update_multipliers-BothListed low_balance ls ss price b l s =
      let closed : (d : DirectionType) → (c : _) → IsClosed (λ _ _ x. IsListed x) low_balance d c =
        λ d c. record {
          reset = λ _. inl refl;
          reduce = inr (inr (inl refl));
          grow = inr (inl refl);
          hedge = λ _. inr (inr (inr refl));
          throttle = λ _. inr (inr (inr refl));
        } in
      let (returns, fit) =
        update_multipliers-IsFitBook (λ _ _ x. IsListed x) low_balance ls ss price b
          (λ _ _. inl refl) (closed DirectionType.long b.long_position.risk_config)
          (closed DirectionType.short b.short_position.risk_config) l s in
      let (lf, sf) = fit in (returns, (lf.buy_fits, lf.sell_fits), (sf.buy_fits, sf.sell_fits))

  -- A multiplier that does not slow orders down.
  abbrev pub IsUnslowed : F → Type 0
  IsUnslowed x = (x ≡ int 1) ⊎ (x ≡ lit 15 10)

  abbrev UnslowedClose : DirectionType → SideType → F → Type 0
  UnslowedClose DirectionType.long SideType.sell x = IsUnslowed x
  UnslowedClose DirectionType.short SideType.buy x = IsUnslowed x
  UnslowedClose _ _ x = Unit {0}

module _ (F : Type 0) ⦃fl : Floats F⦄ where
  one_unslowed : (d : DirectionType) (side : SideType) → UnslowedClose {F = F} d side (int 1)
  one_unslowed DirectionType.long SideType.buy = tt
  one_unslowed DirectionType.long SideType.sell = inl refl
  one_unslowed DirectionType.short SideType.buy = inl refl
  one_unslowed DirectionType.short SideType.sell = tt

module _ {F : Type 0} ⦃fl : Floats F⦄ where
  -- With a low balance, and settings that answer a low margin by doubling the opening orders, an
  -- update leaves the closing orders of neither position slowed down.
  pub update_multipliers-closes :
      (ls ss : Option (PositionState F)) (price : F) (b : Book F)
      → b.long_position.direction ≡ DirectionType.long
      → b.short_position.direction ≡ DirectionType.short
      → b.long_position.risk_config.increase_same_position_on_low_margin ≡ true
      → b.short_position.risk_config.increase_same_position_on_low_margin ≡ true
      → let b' = (update_multipliers ls ss price true b).1 in
        IsUnslowed b'.long_position.amount_multiplier.sell_mult
        × IsUnslowed b'.short_position.amount_multiplier.buy_mult
  update_multipliers-closes ls ss price b l s il is =
      let (returns, fit) =
        update_multipliers-IsFitBook UnslowedClose true ls ss price b (one_unslowed F)
          (record {
            reset = one_unslowed F DirectionType.long;
            reduce = inr refl;
            grow = tt;
            hedge = λ h. absurd (cc h);
            throttle = λ h. absurd (cc (h, il));
          })
          (record {
            reset = one_unslowed F DirectionType.short;
            reduce = inr refl;
            grow = tt;
            hedge = λ h. absurd (cc h);
            throttle = λ h. absurd (cc (h, is));
          })
          l s in
      let (lf, sf) = fit in (lf.sell_fits, sf.buy_fits)
