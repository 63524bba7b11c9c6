-- ===== src/Position/Cycle/FitBook.antt =====
-- A property of multipliers that an update of both positions sets up and keeps:
-- apps/gridbot/src/gridbot/runner.py.
use grid_bot_validation.Prelude.{◌≡◌, refl, sym, subst, Bool, Option, none, some}
use grid_bot_validation.Float.{Floats, int}
use grid_bot_validation.Outcome.{ok, pure, bind_ok}
use grid_bot_validation.Position.{
  DirectionType, SideType, PositionState, RiskConfig, set_amount_multiplier,
  reset_amount_multiplier, calculate_amount_multiplier,
}
use grid_bot_validation.Position.Cycle.{
  Book, or_flat, reset_both, calculate_long, calculate_short, update_multipliers, on_long, on_short,
  other_or,
}
use grid_bot_validation.Position.Cycle.Fit.{IsFit, IsClosed, calculate_amount_multiplier-IsFitPair}

module _ {F : Type 0} ⦃fl : Floats F⦄ (Q : DirectionType → SideType → F → Type 0) where
  -- Both positions of the book are fit.
  abbrev pub IsFitBook : (c c' : RiskConfig F) → Book F → Type 0
  IsFitBook c c' b =
      IsFit Q DirectionType.long c b.long_position × IsFit Q DirectionType.short c' b.short_position

  calculate_long-IsFitBook :
      (low_balance : Bool) (c c' : RiskConfig F) (ls ss : Option (PositionState F)) (price : F)
      (b : Book F)
      → IsClosed Q low_balance DirectionType.long c
      → IsFitBook c c' b
      → ((calculate_long ls ss price low_balance b).0 ≡ ok tt)
        × IsFitBook c c' (calculate_long ls ss price low_balance b).1
  unfolding calculate_long
  calculate_long-IsFitBook low_balance c c' none ss price b k fit = (refl, fit)
  calculate_long-IsFitBook low_balance c c' (some s) ss price b k fit =
      let (returns, pair) =
        calculate_amount_multiplier-IsFitPair Q DirectionType.long low_balance c c' s (or_flat ss)
          price b.long_position b.short_position k fit.0 fit.1 in
      let (now, o, linked, then_other) = pair in
      subst (λ x. (x.0 ≡ ok tt) × IsFitBook c c' x.1)
        (sym (
          bind_ok (on_long (calculate_amount_multiplier s (or_flat ss) price low_balance))
            (λ _. pure tt) b returns))
        (
          refl,
          (
            now,
            subst (λ x. IsFit Q DirectionType.short c' (other_or b.short_position x)) (sym linked)
                then_other,
          ),
        )

  calculate_short-IsFitBook :
      (low_balance : Bool) (c c' : RiskConfig F) (ls ss : Option (PositionState F)) (price : F)
      (b : Book F)
      → IsClosed Q low_balance DirectionType.short c'
      → IsFitBook c c' b
      → ((calculate_short ls ss price low_balance b).0 ≡ ok tt)
        × IsFitBook c c' (calculate_short ls ss price low_balance b).1
  unfolding calculate_short
  calculate_short-IsFitBook low_balance c c' ls none price b k fit = (refl, fit)
  calculate_short-IsFitBook low_balance c c' ls (some s) price b k fit =
      let (returns, pair) =
        calculate_amount_multiplier-IsFitPair Q DirectionType.short low_balance c' c s (or_flat ls)
          price b.short_position b.long_position k fit.1 fit.0 in
      let (now, o, linked, then_other) = pair in
      subst (λ x. (x.0 ≡ ok tt) × IsFitBook c c' x.1)
        (sym (
          bind_ok (on_short (calculate_amount_multiplier s (or_flat ls) price low_balance))
            (λ _. pure tt) b returns))
        (
          refl,
          (
            subst (λ x. IsFit Q DirectionType.long c (other_or b.long_position x)) (sym linked)
                then_other,
            now,
          ),
        )

  reset_both-IsFitBook :
      (c c' : RiskConfig F) (b : Book F)
      → ((d : DirectionType) (side : SideType) → Q d side (int 1))
      → b.long_position.direction ≡ DirectionType.long
      → b.short_position.direction ≡ DirectionType.short
      → b.long_position.risk_config ≡ c
      → b.short_position.risk_config ≡ c'
      → IsFitBook c c' (reset_both b)
  unfolding reset_both reset_amount_multiplier set_amount_multiplier
  reset_both-IsFitBook c c' b q l s cl cs = (
    record {
      same_direction = l;
      same_config = cl;
      buy_fits = q DirectionType.long SideType.buy;
      sell_fits = q DirectionType.long SideType.sell;
    },
    record {
      same_direction = s;
      same_config = cs;
      buy_fits = q DirectionType.short SideType.buy;
      sell_fits = q DirectionType.short SideType.sell;
    },
  )

  pub update_multipliers-IsFitBook :
      (low_balance : Bool) (ls ss : Option (PositionState F)) (price : F) (b : Book F)
      → ((d : DirectionType) (side : SideType) → Q d side (int 1))
      → IsClosed Q low_balance DirectionType.long b.long_position.risk_config
      → IsClosed Q low_balance DirectionType.short b.short_position.risk_config
      → b.long_position.direction ≡ DirectionType.long
      → b.short_position.direction ≡ DirectionType.short
      → let (r, b') = update_multipliers ls ss price low_balance b in
        (r ≡ ok tt) × IsFitBook b.long_position.risk_config b.short_position.risk_config b'
  unfolding update_multipliers
  update_multipliers-IsFitBook low_balance ls ss price b q kl ks l s =
      let c = b.long_position.risk_config in
      let c' = b.short_position.risk_config in
      let fresh = reset_both-IsFitBook c c' b q l s refl refl in
      let (returns, fit) =
        calculate_long-IsFitBook low_balance c c' ls ss price (reset_both b) kl fresh in
      subst (λ x. (x.0 ≡ ok tt) × IsFitBook c c' x.1)
        (sym (
          bind_ok (calculate_long ls ss price low_balance)
            (λ _. calculate_short ls ss price low_balance) (reset_both b) returns))
        (calculate_short-IsFitBook low_balance c c' ls ss price
          (calculate_long ls ss price low_balance (reset_both b)).1 ks fit)
