-- ===== src/Position/Cycle/Fit.antt =====
-- A property of multipliers that one call for one position keeps, whichever rules have fired:
-- packages/gridcore/src/gridcore/position.py.
use grid_bot_validation.Prelude.{◌≡◌, refl, sym, subst, inl, inr, Bool, false, some}
use grid_bot_validation.Float.{Floats, int, lit}
use grid_bot_validation.Outcome.{ok}
use grid_bot_validation.Position.{
  DirectionType, SideType, PositionState, RiskConfig, Position, Linked, set_amount_multiplier,
  set_this, set_other, calculate_amount_multiplier,
}
use grid_bot_validation.Position.Rules.{
  opening, closing, Arm, rated, calculate_amount_multiplier_cases,
}

abbrev pub flip : DirectionType → DirectionType
flip DirectionType.long = DirectionType.short
flip DirectionType.short = DirectionType.long

module _ {F : Type 0} where
  -- The position has this direction and these settings, and its multipliers are allowed.
  pub record IsFit (Q : DirectionType → SideType → F → Type 0) (d : DirectionType)
      (c : RiskConfig F) (p : Position F) : Type 0 where
    pub same_direction : p.direction ≡ d
    pub same_config : p.risk_config ≡ c
    pub buy_fits : Q d SideType.buy p.amount_multiplier.buy_mult
    pub sell_fits : Q d SideType.sell p.amount_multiplier.sell_mult

module _ {F : Type 0} ⦃fl : Floats F⦄ (Q : DirectionType → SideType → F → Type 0) where
  set_amount_multiplier-IsFit :
      (d : DirectionType) (c : RiskConfig F) (side : SideType) (mult : F) (p : Position F)
      → Q d side mult
      → IsFit Q d c p
      → IsFit Q d c (set_amount_multiplier side mult p)
  unfolding set_amount_multiplier
  set_amount_multiplier-IsFit d c SideType.buy mult p q fit = record {
    same_direction = fit.same_direction;
    same_config = fit.same_config;
    buy_fits = q;
    sell_fits = fit.sell_fits;
  }
  set_amount_multiplier-IsFit d c SideType.sell mult p q fit = record {
    same_direction = fit.same_direction;
    same_config = fit.same_config;
    buy_fits = fit.buy_fits;
    sell_fits = q;
  }

  -- The values that the rules write are allowed.
  pub record IsClosed (low_balance : Bool) (d : DirectionType) (c : RiskConfig F) : Type 0 where
    pub reset : (side : SideType) → Q d side (int 1)
    pub reduce : Q d (closing d) (lit 15 10)
    pub grow : Q d (opening d) (int 2)
    pub hedge : low_balance ≡ false → Q (flip d) (opening d) (lit 5 10)
    pub throttle : c.increase_same_position_on_low_margin ≡ false → Q d (closing d) (lit 5 10)

  -- Both positions of a linked pair are fit.
  abbrev pub IsFitPair : DirectionType → (c c' : RiskConfig F) → Linked F → Type 0
  IsFitPair d c c' p =
      IsFit Q d c p.this × (o : Position F) × (p.opposite ≡ some o) × IsFit Q (flip d) c' o

  Arm-IsFitPair :
      (d : DirectionType) (low_balance : Bool) (c c' : RiskConfig F) (p p' : Linked F)
      → IsClosed low_balance d c
      → Arm d low_balance p p'
      → IsFitPair d c c' p
      → IsFitPair d c c' p'
  unfolding set_this set_other
  Arm-IsFitPair d low_balance c c' p p' k arm (fit, o, linked, fit') = elim arm [
    | Arm.keep same ↦ subst (IsFitPair d c c') (sym same) (fit, o, linked, fit')
    | Arm.reduce same ↦ subst (IsFitPair d c c') (sym same) (
      set_amount_multiplier-IsFit d c (closing d) (lit 15 10) p.this k.reduce fit,
      o,
      linked,
      fit',
    )
    | Arm.grow same ↦
        subst (IsFitPair d c c') (sym same)
          (set_amount_multiplier-IsFit d c (opening d) (int 2) p.this k.grow fit, o, linked, fit')
    | Arm.throttle less same ↦ subst (IsFitPair d c c') (sym same) (
      set_amount_multiplier-IsFit d c (closing d) (lit 5 10) p.this
          (k.throttle
            (subst (λ x. x.increase_same_position_on_low_margin ≡ false) fit.same_config less))
          fit,
      o,
      linked,
      fit',
    )
    | Arm.hedge enough same ↦ subst (IsFitPair d c c') (sym same) (
      fit,
      set_amount_multiplier (opening d) (lit 5 10) o,
      rw linked refl,
      set_amount_multiplier-IsFit (flip d) c' (opening d) (lit 5 10) o (k.hedge enough) fit',
    )
  ]

  rated-IsFitPair :
      (d : DirectionType) (c c' : RiskConfig F) (s s' : PositionState F) (p : Linked F)
      → IsFitPair d c c' p
      → IsFitPair d c c' (rated s s' p)
  rated-IsFitPair d c c' s s' p (fit, o, linked, fit') = (
    record {
      same_direction = fit.same_direction;
      same_config = fit.same_config;
      buy_fits = fit.buy_fits;
      sell_fits = fit.sell_fits;
    },
    o,
    linked,
    fit',
  )

  pub calculate_amount_multiplier-IsFitPair :
      (d : DirectionType) (low_balance : Bool) (c c' : RiskConfig F) (s s' : PositionState F)
      (price : F) (this other : Position F)
      → IsClosed low_balance d c
      → IsFit Q d c this
      → IsFit Q (flip d) c' other
      → let (r, p') =
          calculate_amount_multiplier s s' price low_balance
            (record { this = this; opposite = some other }) in
        (r ≡ ok p'.this.amount_multiplier) × IsFitPair d c c' p'
  calculate_amount_multiplier-IsFitPair d low_balance c c' s s' price this other k fit fit' =
      let p : Linked F = record { this = this; opposite = some other } in
      let pair : IsFitPair d c c' p = (fit, other, refl, fit') in
      let (returns, what) = calculate_amount_multiplier_cases s s' price low_balance this other in
      (
        returns,
        elim what [
          | inl same ↦ subst (IsFitPair d c c') (sym same) pair
          | inr arm ↦
              Arm-IsFitPair d low_balance c c' (rated s s' p)
                (calculate_amount_multiplier s s' price low_balance p).1 k
                (subst
                  (λ e.
                    Arm e low_balance (rated s s' p)
                      (calculate_amount_multiplier s s' price low_balance p).1)
                  fit.same_direction arm)
                (rated-IsFitPair d c c' s s' p pair)
        ],
      )
