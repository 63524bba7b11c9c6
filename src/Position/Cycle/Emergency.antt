-- ===== src/Position/Cycle/Emergency.antt =====
-- An emergency of the long position, and what the short position's rules then do to the answer:
-- packages/gridcore/src/gridcore/position.py in the order of calls of
-- apps/gridbot/src/gridbot/runner.py.
use grid_bot_validation.Prelude.{
  ◌≡◌, refl, ap, ◌∙◌, Bool, true, false, ◌&&◌, not, Option, none, some, arith, if◌then◌else◌,
  Bool-cases, inl, inr,
}
use grid_bot_validation.Float.{Floats, int, lit}
use grid_bot_validation.Outcome.{ok, pure, bind_ok}
use grid_bot_validation.Position.{
  DirectionType, SideType, PositionState, RiskConfig, Position, Linked, set_amount_multiplier,
  set_this, set_other, reset_amount_multiplier, calculate_amount_multiplier, adjust, apply_rules,
  returned, apply_long_position_rules, apply_short_position_rules, adjust_position_for_low_margin,
  low_margin, is_high_risk, is_moderate_risk, get_liquidation_ratio,
}
use grid_bot_validation.Position.Rules.{rated}
use grid_bot_validation.Position.Cycle.{
  Book, or_flat, reset_both, calculate_long, calculate_short, update_multipliers, on_long, on_short,
  other_or,
}

module _ {F : Type 0} ⦃fl : Floats F⦄ where
  -- The state has an entry price.
  pub record IsOpen (s : PositionState F) : Type 0 where
    pub entry : F
    pub known : s.entry_price ≡ some entry
    pub priced : fl.eq entry (int 0) ≡ false

  calculate_amount_multiplier-open :
      (s s' : PositionState F) (price : F) (low_balance : Bool) (this other : Position F)
      (w : IsOpen s)
      → let p : Linked F = record { this = this; opposite = some other } in
        calculate_amount_multiplier s s' price low_balance p
        ≡ returned (adjust w.entry s s' price low_balance p)
  unfolding calculate_amount_multiplier adjust
  calculate_amount_multiplier-open s s' price low_balance this other w = rw (w.known, w.priced) refl

  adjust-high_risk :
      (entry : F) (s s' : PositionState F) (price : F) (low_balance : Bool) (p : Linked F)
      → p.this.direction ≡ DirectionType.long
      → is_high_risk DirectionType.long p.this.risk_config
          (get_liquidation_ratio s.liquidation_price price)
        ≡ true
      → adjust entry s s' price low_balance p ≡ set_this SideType.sell (lit 15 10) (rated s s' p)
  unfolding adjust apply_rules apply_long_position_rules
  adjust-high_risk entry s s' price low_balance p d high = ground arith

  -- The short position's rules throttle the long one's closing orders.
  abbrev pub is_hedged : RiskConfig F → (liq_ratio : F) → (low_balance : Bool) → Bool
  is_hedged c liq_ratio low_balance =
      not (is_high_risk DirectionType.short c liq_ratio)
      && (is_moderate_risk DirectionType.short c liq_ratio && not low_balance)

  low_margin-opposite : (p : Linked F) → (low_margin p).opposite ≡ p.opposite
  unfolding adjust_position_for_low_margin set_this
  low_margin-opposite p = ground arith

  apply_short_position_rules-opposite :
      (liq_ratio : F) (equal : Bool) (total pnl : F) (low_balance : Bool) (p : Linked F)
      → (apply_short_position_rules liq_ratio equal total pnl low_balance p).opposite ≡ (
          if is_hedged p.this.risk_config liq_ratio low_balance
          then (set_other SideType.sell (lit 5 10) p).opposite
          else p.opposite)
  unfolding apply_short_position_rules set_this
  apply_short_position_rules-opposite liq_ratio equal total pnl low_balance p =
      ground (arith, low_margin-opposite p)

  apply_rules-opposite :
      (d : DirectionType) (liq_ratio : F) (equal : Bool) (total pnl : F) (low_balance : Bool)
      (p : Linked F)
      → d ≡ DirectionType.short
      → (apply_rules d liq_ratio equal total pnl low_balance p).opposite ≡ (
          if is_hedged p.this.risk_config liq_ratio low_balance
          then (set_other SideType.sell (lit 5 10) p).opposite
          else p.opposite)
  unfolding apply_rules
  apply_rules-opposite DirectionType.long liq_ratio equal total pnl low_balance p h = absurd (cc h)
  apply_rules-opposite DirectionType.short liq_ratio equal total pnl low_balance p h =
      apply_short_position_rules-opposite liq_ratio equal total pnl low_balance p

  adjust-opposite :
      (entry : F) (s s' : PositionState F) (price : F) (low_balance : Bool) (p : Linked F)
      → p.this.direction ≡ DirectionType.short
      → (adjust entry s s' price low_balance p).opposite ≡ (
          if is_hedged p.this.risk_config
            (get_liquidation_ratio s.liquidation_price price)
            low_balance
          then (set_other SideType.sell (lit 5 10) p).opposite
          else p.opposite)
  unfolding adjust set_other
  adjust-opposite entry s s' price low_balance p d =
      apply_rules-opposite p.this.direction _ _ _ _ low_balance (rated s s' p) d

  abbrev after_long : Book F → Linked F → Book F
  after_long b p = record {
    long_position = p.this;
    short_position = other_or b.short_position p.opposite;
  }

  abbrev after_short : Book F → Linked F → Book F
  after_short b p = record {
    long_position = other_or b.long_position p.opposite;
    short_position = p.this;
  }

  calculate_long-open :
      (s : PositionState F) (ss : Option (PositionState F)) (price : F) (low_balance : Bool)
      (b : Book F) (w : IsOpen s)
      → calculate_long (some s) ss price low_balance b ≡ (
        ok tt,
        after_long b (
            adjust w.entry s
              (or_flat ss)
              price
              low_balance
              (record { this = b.long_position; opposite = some b.short_position })),
      )
  unfolding calculate_long
  calculate_long-open s ss price low_balance b w =
      let call =
        calculate_amount_multiplier-open s (or_flat ss) price low_balance b.long_position
          b.short_position w in
      bind_ok (on_long (calculate_amount_multiplier s (or_flat ss) price low_balance))
        (λ _. pure tt) b (ap (λ x. x.0) call)
      ∙ ap (λ x. (ok tt, after_long b x.1)) call

  calculate_short-open :
      (ls : Option (PositionState F)) (s : PositionState F) (price : F) (low_balance : Bool)
      (b : Book F) (w : IsOpen s)
      → calculate_short ls (some s) price low_balance b ≡ (
        ok tt,
        after_short b (
            adjust w.entry s
              (or_flat ls)
              price
              low_balance
              (record { this = b.short_position; opposite = some b.long_position })),
      )
  unfolding calculate_short
  calculate_short-open ls s price low_balance b w =
      let call =
        calculate_amount_multiplier-open s (or_flat ls) price low_balance b.short_position
          b.long_position w in
      bind_ok (on_short (calculate_amount_multiplier s (or_flat ls) price low_balance))
        (λ _. pure tt) b (ap (λ x. x.0) call)
      ∙ ap (λ x. (ok tt, after_short b x.1)) call

  abbrev closing_mult : Position F → F
  closing_mult p = p.amount_multiplier.sell_mult

  -- An entry price other than 0
  abbrev is_priced : Option F → Bool
  is_priced none = false
  is_priced (some entry) = not (fl.eq entry (int 0))

  -- The exchange reports the position, with an entry price.
  abbrev pub is_open : Option (PositionState F) → Bool
  is_open none = false
  is_open (some s) = is_priced s.entry_price

  is_priced-IsOpen : (s : PositionState F) → is_priced s.entry_price ≡ true → IsOpen s
  is_priced-IsOpen s h = entered s.entry_price refl h
    where
      entered : (e : Option F) → s.entry_price ≡ e → is_priced e ≡ true → IsOpen s
      entered none k h = absurd (cc h)
      entered (some entry) k h = record { entry = entry; known = k; priced = ground (arith, h) }

  calculate_amount_multiplier-closed :
      (s s' : PositionState F) (price : F) (low_balance : Bool) (this other : Position F)
      → is_priced s.entry_price ≡ false
      → let p : Linked F = record { this = this; opposite = some other } in
        calculate_amount_multiplier s s' price low_balance p ≡ returned p
  unfolding calculate_amount_multiplier
  calculate_amount_multiplier-closed s s' price low_balance this other h =
      entered s.entry_price refl h
    where
      entered :
          (e : Option F)
          → s.entry_price ≡ e
          → is_priced e ≡ false
          → let p : Linked F = record { this = this; opposite = some other } in
            calculate_amount_multiplier s s' price low_balance p ≡ returned p
      entered none k h = rw k refl
      entered (some entry) k h = elim (Bool-cases (fl.eq entry (int 0))) [
        | inl zero ↦ rw (k, zero) refl
        | inr priced ↦ absurd (cc (h, ap not priced))
      ]

  -- A call for a position that is not open changes nothing.
  calculate_short-closed :
      (ls : Option (PositionState F)) (s : PositionState F) (price : F) (low_balance : Bool)
      (b : Book F)
      → is_priced s.entry_price ≡ false
      → calculate_short ls (some s) price low_balance b ≡ (ok tt, b)
  unfolding calculate_short
  calculate_short-closed ls s price low_balance b h =
      let call =
        calculate_amount_multiplier-closed s (or_flat ls) price low_balance b.short_position
          b.long_position h in
      bind_ok (on_short (calculate_amount_multiplier s (or_flat ls) price low_balance))
        (λ _. pure tt) b (ap (λ x. x.0) call)
      ∙ ap (λ x. (ok tt, after_short b x.1)) call

  -- The long position's closing orders after the call for the short one, when they stood at 1.5.
  open_call-sell :
      (s s' : PositionState F) (price : F) (low_balance : Bool) (b : Book F) (w : IsOpen s')
      → b.short_position.direction ≡ DirectionType.short
      → closing_mult b.long_position ≡ lit 15 10
      → closing_mult (calculate_short (some s) (some s') price low_balance b).1.long_position ≡ (
          if is_hedged b.short_position.risk_config
            (get_liquidation_ratio s'.liquidation_price price)
            low_balance
          then lit 5 10
          else lit 15 10)
  unfolding set_other set_amount_multiplier
  open_call-sell s s' price low_balance b w d raised =
      let p : Linked F = record { this = b.short_position; opposite = some b.long_position } in
      let hedged =
        is_hedged b.short_position.risk_config (get_liquidation_ratio s'.liquidation_price price)
          low_balance in
      ap (λ x. closing_mult x.1.long_position)
        (calculate_short-open (some s) s' price low_balance b w)
      ∙ ap (λ o. closing_mult (other_or b.long_position o))
          (adjust-opposite w.entry s' s price low_balance p d)
      ∙ elim (Bool-cases hedged) [ inl due ↦ rw due refl | inr spared ↦ rw spared raised ]

  short_call-sell :
      (s : PositionState F) (ss : Option (PositionState F)) (price : F) (low_balance : Bool)
      (b : Book F)
      → b.short_position.direction ≡ DirectionType.short
      → closing_mult b.long_position ≡ lit 15 10
      → closing_mult (calculate_short (some s) ss price low_balance b).1.long_position ≡ (
          if is_open ss
            && is_hedged b.short_position.risk_config
                (get_liquidation_ratio (or_flat ss).liquidation_price price)
                low_balance
          then lit 5 10
          else lit 15 10)
  unfolding calculate_short
  short_call-sell s none price low_balance b d raised = raised
  short_call-sell s (some s') price low_balance b d raised =
      elim (Bool-cases (is_priced s'.entry_price)) [
        | inl held ↦
            rw held (open_call-sell s s' price low_balance b (is_priced-IsOpen s' held) d raised)
        | inr flat ↦ rw flat (
            ap (λ x. closing_mult x.1.long_position)
              (calculate_short-closed (some s) s' price low_balance b flat)
            ∙ raised)
      ]

  -- In an update of a linked pair where the long position is open and at high liquidation risk, its
  -- closing orders end at 1.5 times their size, also where the short position is flat or the exchange
  -- reports none; unless the short position is open, in the band of moderate and not of high risk, and
  -- the balance is not low: then they end at half their size, since the later call for the short
  -- position overwrites the answer to the emergency.
  pub update_multipliers-long_emergency :
      (s : PositionState F) (ss : Option (PositionState F)) (price : F) (low_balance : Bool)
      (b : Book F)
      → IsOpen s
      → b.long_position.direction ≡ DirectionType.long
      → b.short_position.direction ≡ DirectionType.short
      → is_high_risk DirectionType.long b.long_position.risk_config
          (get_liquidation_ratio s.liquidation_price price)
        ≡ true
      → let b' = (update_multipliers (some s) ss price low_balance b).1 in
        b'.long_position.amount_multiplier.sell_mult ≡ (
          if is_open ss
            && is_hedged b.short_position.risk_config
                (get_liquidation_ratio (or_flat ss).liquidation_price price)
                low_balance
          then lit 5 10
          else lit 15 10)
  unfolding update_multipliers reset_both reset_amount_multiplier set_this set_amount_multiplier
  update_multipliers-long_emergency s ss price low_balance b w l sh high =
      let fresh = reset_both b in
      let p : Linked F = record {
        this = fresh.long_position;
        opposite = some fresh.short_position;
      } in
      let raised = after_long fresh (set_this SideType.sell (lit 15 10) (rated s (or_flat ss) p)) in
      let first : calculate_long (some s) ss price low_balance fresh ≡ (ok tt, raised) =
        calculate_long-open s ss price low_balance fresh w
        ∙ ap (λ x. (ok tt, after_long fresh x))
            (adjust-high_risk w.entry s (or_flat ss) price low_balance p l high) in
      ap (λ x. closing_mult x.1.long_position)
        (bind_ok (calculate_long (some s) ss price low_balance)
            (λ _. calculate_short (some s) ss price low_balance) fresh (ap (λ x. x.0) first)
          ∙ ap (λ x. calculate_short (some s) ss price low_balance x.1) first)
      ∙ short_call-sell s ss price low_balance raised sh refl
