-- ===== src/Position/Rules.antt =====
-- What one call of `calculate_amount_multiplier` can do: packages/gridcore/src/gridcore/position.py.
use grid_bot_validation.Prelude.{
  ◌≡◌, refl, Bool, false, ◌&&◌, inl, inr, some, Bool-cases, Option-cases, arith, ◌⊎◌,
}
use grid_bot_validation.Float.{Floats, int, lit}
use grid_bot_validation.Outcome.{ok}
use grid_bot_validation.Position.{
  DirectionType, SideType, PositionState, Position, Linked, set_this, set_other, low_margin,
  adjust_position_for_low_margin, is_high_risk, is_moderate_risk, apply_long_position_rules,
  apply_short_position_rules, apply_rules, margin_ratio, adjust, calculate_amount_multiplier,
}

-- The side that opens a position, and the side that closes it.
abbrev pub opening : DirectionType → SideType
opening DirectionType.long = SideType.buy
opening DirectionType.short = SideType.sell

abbrev pub closing : DirectionType → SideType
closing DirectionType.long = SideType.sell
closing DirectionType.short = SideType.buy

module _ {F : Type 0} ⦃fl : Floats F⦄ where
  -- The five things that the rules can do to a linked position: nothing, raise its closing orders,
  -- throttle the closing orders of the opposite position, which are on this one's opening side,
  -- double its opening orders, or throttle its own closing orders.
  pub data Arm (d : DirectionType) (low_balance : Bool) (p p' : Linked F) : Type 0 where
    keep : p' ≡ p → Arm d low_balance p p'
    reduce : p' ≡ set_this (closing d) (lit 15 10) p → Arm d low_balance p p'
    hedge : low_balance ≡ false → p' ≡ set_other (opening d) (lit 5 10) p → Arm d low_balance p p'
    grow : p' ≡ set_this (opening d) (int 2) p → Arm d low_balance p p'
    throttle :
        p.this.risk_config.increase_same_position_on_low_margin ≡ false
        → p' ≡ set_this (closing d) (lit 5 10) p
        → Arm d low_balance p p'

  low_margin-Arm :
      (d : DirectionType) (low_balance : Bool) (p : Linked F)
      → p.this.direction ≡ d
      → Arm d low_balance p (low_margin p)
  unfolding adjust_position_for_low_margin
  low_margin-Arm DirectionType.long low_balance p h =
      elim (Bool-cases p.this.risk_config.increase_same_position_on_low_margin) [
        | inl more ↦ Arm.grow (ground arith)
        | inr less ↦ Arm.throttle less (ground arith)
      ]
  low_margin-Arm DirectionType.short low_balance p h =
      elim (Bool-cases p.this.risk_config.increase_same_position_on_low_margin) [
        | inl more ↦ Arm.grow (ground arith)
        | inr less ↦ Arm.throttle less (ground arith)
      ]

  apply_long_position_rules-Arm :
      (liq_ratio : F) (equal : Bool) (total pnl : F) (low_balance : Bool) (p : Linked F)
      → p.this.direction ≡ DirectionType.long
      → Arm DirectionType.long low_balance p
          (apply_long_position_rules liq_ratio equal total pnl low_balance p)
  unfolding apply_long_position_rules
  apply_long_position_rules-Arm liq_ratio equal total pnl low_balance p h =
      let c = p.this.risk_config in
      elim (Bool-cases (is_high_risk DirectionType.long c liq_ratio)) [
        | inl high ↦ Arm.reduce (ground arith)
        | inr below ↦ elim (Bool-cases (is_moderate_risk DirectionType.long c liq_ratio)) [
          | inl moderate ↦ elim (Bool-cases low_balance) [
            | inl low ↦ Arm.keep (ground arith)
            | inr enough ↦ Arm.hedge enough (ground arith)
          ]
          | inr safe ↦ elim (Bool-cases (equal && fl.lt total c.min_total_margin)) [
            | inl little ↦
                rw (below, safe, little) (low_margin-Arm DirectionType.long low_balance p h)
            | inr margin ↦
                elim (Bool-cases (fl.lt p.this.position_ratio (lit 5 10) && fl.lt pnl (int 0))) [
                  | inl losing ↦ Arm.grow (ground arith)
                  | inr steady ↦ elim (Bool-cases (fl.lt p.this.position_ratio (lit 20 100))) [
                    | inl tiny ↦ Arm.grow (ground arith)
                    | inr large ↦ Arm.keep (ground arith)
                  ]
                ]
          ]
        ]
      ]

  apply_short_position_rules-Arm :
      (liq_ratio : F) (equal : Bool) (total pnl : F) (low_balance : Bool) (p : Linked F)
      → p.this.direction ≡ DirectionType.short
      → Arm DirectionType.short low_balance p
          (apply_short_position_rules liq_ratio equal total pnl low_balance p)
  unfolding apply_short_position_rules
  apply_short_position_rules-Arm liq_ratio equal total pnl low_balance p h =
      let c = p.this.risk_config in
      elim (Bool-cases (is_high_risk DirectionType.short c liq_ratio)) [
        | inl high ↦ Arm.reduce (ground arith)
        | inr below ↦ elim (Bool-cases (is_moderate_risk DirectionType.short c liq_ratio)) [
          | inl moderate ↦ elim (Bool-cases low_balance) [
            | inl low ↦ Arm.keep (ground arith)
            | inr enough ↦ Arm.hedge enough (ground arith)
          ]
          | inr safe ↦ elim (Bool-cases (equal && fl.lt total c.min_total_margin)) [
            | inl little ↦
                rw (below, safe, little) (low_margin-Arm DirectionType.short low_balance p h)
            | inr margin ↦
                elim (Bool-cases (fl.lt (int 2) p.this.position_ratio && fl.lt pnl (int 0))) [
                  | inl losing ↦ Arm.grow (ground arith)
                  | inr steady ↦ elim (Bool-cases (fl.lt (int 5) p.this.position_ratio)) [
                    | inl tiny ↦ Arm.grow (ground arith)
                    | inr large ↦ Arm.keep (ground arith)
                  ]
                ]
          ]
        ]
      ]

  apply_rules-Arm :
      (d : DirectionType) (liq_ratio : F) (equal : Bool) (total pnl : F) (low_balance : Bool)
      (p : Linked F)
      → p.this.direction ≡ d
      → Arm d low_balance p (apply_rules d liq_ratio equal total pnl low_balance p)
  unfolding apply_rules
  apply_rules-Arm DirectionType.long = apply_long_position_rules-Arm
  apply_rules-Arm DirectionType.short = apply_short_position_rules-Arm

  -- The shared ratio of a call, which the position keeps.
  abbrev pub rated : PositionState F → PositionState F → Linked F → Linked F
  rated position opposite_position p = record p {
    this = record p.this {
      position_ratio = margin_ratio p.this.direction position.margin opposite_position.margin;
    };
  }

  pub adjust-Arm :
      (entry : F) (position opposite_position : PositionState F) (last_close : F)
      (low_balance : Bool) (p : Linked F)
      → Arm p.this.direction low_balance
          (rated position opposite_position p)
          (adjust entry position opposite_position last_close low_balance p)
  unfolding adjust
  adjust-Arm entry position opposite_position last_close low_balance p =
      apply_rules-Arm p.this.direction _ _ _ _ low_balance (rated position opposite_position p) refl

  -- A call on a linked position never raises and returns the multipliers that the position then
  -- has. It changes nothing where there is no entry price; else it sets the shared ratio, and on top
  -- of that does one of the five things, so that at most one of the four multipliers changes.
  pub calculate_amount_multiplier_cases :
      (position opposite_position : PositionState F) (last_close : F) (low_balance : Bool)
      (this other : Position F)
      → let p : Linked F = record { this = this; opposite = some other } in
        let (r, p') =
          calculate_amount_multiplier position opposite_position last_close low_balance p in
        (r ≡ ok p'.this.amount_multiplier)
        × ((p' ≡ p) ⊎ Arm this.direction low_balance (rated position opposite_position p) p')
  unfolding calculate_amount_multiplier adjust
  calculate_amount_multiplier_cases position opposite_position last_close low_balance this other =
      elim (Option-cases position.entry_price) [
        | inl flat ↦ rw flat (refl, inl refl)
        | inr (entry, known) ↦ elim (Bool-cases (fl.eq entry (int 0))) [
          | inl zero_price ↦ rw (known, zero_price) (refl, inl refl)
          | inr entered ↦
              rw (known, entered)
                (
                  refl,
                  inr (
                      adjust-Arm entry position opposite_position last_close low_balance
                        (record { this = this; opposite = some other })),
                )
        ]
      ]
