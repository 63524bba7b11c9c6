-- ===== src/Position.antt =====
-- The risk rules for order sizes: packages/gridcore/src/gridcore/position.py.
-- A `Decimal` that the rules convert by `float(...)` is written as that float. The fields of
-- `PositionState` that are only logged are left out, as are the log lines.
pub mod Rules
pub mod Cycle
mod Tests
use grid_bot_validation.Prelude.{ℕ, ◌+◌, Bool, true, false, ◌&&◌, Option, none, some, if◌then◌else◌}
use grid_bot_validation.Float.{Floats, int, lit}
use grid_bot_validation.Outcome.{Result, ok, err, Error, Action}

-- `DirectionType` and `SideType`
pub data DirectionType : Type 0 where
  long short : DirectionType

pub data SideType : Type 0 where
  buy sell : SideType

pub record PositionState (F : Type 0) : Type 0 where
  pub entry_price : Option F
  pub margin : F
  pub liquidation_price : F
  pub leverage : ℕ

pub record RiskConfig (F : Type 0) : Type 0 where
  pub min_liq_ratio : F
  pub max_liq_ratio : F
  pub max_margin : F
  pub min_total_margin : F
  pub increase_same_position_on_low_margin : Bool

-- The dict `amount_multiplier`, whose two keys are always there.
pub record Multipliers (F : Type 0) : Type 0 where
  pub buy_mult : F
  pub sell_mult : F

-- The fields of one `Position`, without `_opposite`.
pub record Position (F : Type 0) : Type 0 where
  pub direction : DirectionType
  pub risk_config : RiskConfig F
  pub amount_multiplier : Multipliers F
  pub position_ratio : F
  pub size : F
  pub liquidation_price : F

-- The object that a method is called on and, where `set_opposite` has linked one, the object that
-- `_opposite` points to. The two are distinct objects, as `create_linked_pair` makes them.
pub record Linked (F : Type 0) : Type 0 where
  pub this : Position F
  pub opposite : Option (Position F)

module _ {F : Type 0} where
  -- `set_amount_multiplier`
  unfoldable pub set_amount_multiplier : SideType → F → Position F → Position F
  set_amount_multiplier SideType.buy mult p = record p {
    amount_multiplier = record p.amount_multiplier { buy_mult = mult };
  }
  set_amount_multiplier SideType.sell mult p = record p {
    amount_multiplier = record p.amount_multiplier { sell_mult = mult };
  }

  -- `set_opposite`
  abbrev pub set_opposite : Position F → Linked F → Linked F
  set_opposite other p = record p { opposite = some other }

  unfoldable pub set_this : SideType → F → Linked F → Linked F
  set_this side mult p = record p { this = set_amount_multiplier side mult p.this }

  unfoldable pub set_other : SideType → F → Linked F → Linked F
  set_other side mult p = record p {
    opposite = elim p.opposite [
      | none ↦ none
      | some other ↦ some (set_amount_multiplier side mult other)
    ];
  }

module _ {F : Type 0} ⦃fl : Floats F⦄ where
  -- `Position.__init__`
  unfoldable pub init : DirectionType → RiskConfig F → Position F
  init direction risk_config = record {
    direction = direction;
    risk_config = risk_config;
    amount_multiplier = record { buy_mult = int 1; sell_mult = int 1 };
    position_ratio = int 1;
    size = int 0;
    liquidation_price = int 0;
  }

  -- `create_linked_pair`: the short position takes the long one's settings where it has none.
  unfoldable pub create_linked_pair :
      RiskConfig F → (short_config : Option (RiskConfig F)) → Position F × Position F
  unfolding init
  create_linked_pair long_config none =
      (init DirectionType.long long_config, init DirectionType.short long_config)
  create_linked_pair long_config (some short_config) =
      (init DirectionType.long long_config, init DirectionType.short short_config)

  unfoldable pub reset_amount_multiplier : Position F → Position F
  unfolding set_amount_multiplier
  reset_amount_multiplier p =
      set_amount_multiplier SideType.sell (int 1) (set_amount_multiplier SideType.buy (int 1) p)

  -- `_adjust_position_for_low_margin`
  unfoldable pub adjust_position_for_low_margin : DirectionType → Bool → Linked F → Linked F
  adjust_position_for_low_margin DirectionType.long true p = set_this SideType.buy (int 2) p
  adjust_position_for_low_margin DirectionType.short true p = set_this SideType.sell (int 2) p
  adjust_position_for_low_margin DirectionType.long false p = set_this SideType.sell (lit 5 10) p
  adjust_position_for_low_margin DirectionType.short false p = set_this SideType.buy (lit 5 10) p

  abbrev pub low_margin : Linked F → Linked F
  low_margin p =
      adjust_position_for_low_margin p.this.direction
        p.this.risk_config.increase_same_position_on_low_margin p

  -- `_get_liquidation_ratio`
  abbrev pub get_liquidation_ratio : (liq_price last_close : F) → F
  get_liquidation_ratio liq_price last_close =
      if fl.eq last_close (int 0) then int 0 else fl.div liq_price last_close

  -- The bands of the liquidation ratio, which the two directions read in opposite senses.
  abbrev pub is_high_risk : DirectionType → RiskConfig F → (liq_ratio : F) → Bool
  is_high_risk DirectionType.long c liq_ratio =
      fl.lt (fl.mul (lit 105 100) c.min_liq_ratio) liq_ratio
  is_high_risk DirectionType.short c liq_ratio =
      fl.lt (int 0) liq_ratio && fl.lt liq_ratio (fl.mul (lit 95 100) c.max_liq_ratio)

  abbrev pub is_moderate_risk : DirectionType → RiskConfig F → (liq_ratio : F) → Bool
  is_moderate_risk DirectionType.long c liq_ratio = fl.lt c.min_liq_ratio liq_ratio
  is_moderate_risk DirectionType.short c liq_ratio =
      fl.lt (int 0) liq_ratio && fl.lt liq_ratio c.max_liq_ratio

  -- `_apply_long_position_rules`
  unfoldable pub apply_long_position_rules :
      (liq_ratio : F) (is_position_equal : Bool) (total_margin unrealized_pnl_pct : F)
      → (low_balance : Bool) → Linked F
      → Linked F
  apply_long_position_rules liq_ratio is_position_equal total_margin unrealized_pnl_pct low_balance
        p =
      let c = p.this.risk_config in
      if is_high_risk DirectionType.long c liq_ratio
      then set_this SideType.sell (lit 15 10) p
      else if is_moderate_risk DirectionType.long c liq_ratio
      then (if low_balance then p else set_other SideType.buy (lit 5 10) p)
      else if is_position_equal && fl.lt total_margin c.min_total_margin
      then low_margin p
      else if fl.lt p.this.position_ratio (lit 5 10) && fl.lt unrealized_pnl_pct (int 0)
      then set_this SideType.buy (int 2) p
      else if fl.lt p.this.position_ratio (lit 20 100)
      then set_this SideType.buy (int 2) p
      else p

  -- `_apply_short_position_rules`
  unfoldable pub apply_short_position_rules :
      (liq_ratio : F) (is_position_equal : Bool) (total_margin unrealized_pnl_pct : F)
      → (low_balance : Bool) → Linked F
      → Linked F
  apply_short_position_rules liq_ratio is_position_equal total_margin unrealized_pnl_pct low_balance
        p =
      let c = p.this.risk_config in
      if is_high_risk DirectionType.short c liq_ratio
      then set_this SideType.buy (lit 15 10) p
      else if is_moderate_risk DirectionType.short c liq_ratio
      then (if low_balance then p else set_other SideType.sell (lit 5 10) p)
      else if is_position_equal && fl.lt total_margin c.min_total_margin
      then low_margin p
      else if fl.lt (int 2) p.this.position_ratio && fl.lt unrealized_pnl_pct (int 0)
      then set_this SideType.sell (int 2) p
      else if fl.lt (int 5) p.this.position_ratio
      then set_this SideType.sell (int 2) p
      else p

  unfoldable pub apply_rules :
      DirectionType
      → (liq_ratio : F) (is_position_equal : Bool) (total_margin unrealized_pnl_pct : F)
      → (low_balance : Bool) → Linked F
      → Linked F
  apply_rules DirectionType.long = apply_long_position_rules
  apply_rules DirectionType.short = apply_short_position_rules

  -- `unrealized_pnl_pct`
  abbrev pub unrealized_pnl : DirectionType → (entry_price last_close : F) → ℕ → F
  unrealized_pnl DirectionType.long entry_price last_close leverage =
      fl.mul (fl.mul (fl.div (fl.sub last_close entry_price) entry_price) (int 100)) (int leverage)
  unrealized_pnl DirectionType.short entry_price last_close leverage =
      fl.mul (fl.mul (fl.div (fl.sub entry_price last_close) entry_price) (int 100)) (int leverage)

  -- `long_margin / short_margin`, with 0.0001 in place of a short margin of 0.
  abbrev ratio_of : (long_margin short_margin : F) → F
  ratio_of long_margin short_margin =
      fl.div long_margin (if fl.eq short_margin (int 0) then lit 1 10_000 else short_margin)

  abbrev pub margin_ratio : DirectionType → (margin opposite_margin : F) → F
  margin_ratio DirectionType.long margin opposite_margin = ratio_of margin opposite_margin
  margin_ratio DirectionType.short margin opposite_margin = ratio_of opposite_margin margin

  -- What is done once the position has an entry price.
  unfoldable pub adjust :
      (entry_price : F)
      → (position opposite_position : PositionState F) → (last_close : F) → (low_balance : Bool)
      → Linked F
      → Linked F
  adjust entry_price position opposite_position last_close low_balance p =
      let d = p.this.direction in
      let ratio = margin_ratio d position.margin opposite_position.margin in
      apply_rules d (get_liquidation_ratio position.liquidation_price last_close)
        (fl.lt (lit 94 100) ratio && fl.lt ratio (lit 105 100))
        (fl.add position.margin opposite_position.margin)
        (unrealized_pnl d entry_price last_close position.leverage) low_balance
        (record p { this = record p.this { position_ratio = ratio } })

  abbrev pub returned : Linked F → Result (Multipliers F) × Linked F
  returned p = (ok p.this.amount_multiplier, p)

  unfoldable pub calculate_amount_multiplier :
      (position opposite_position : PositionState F)
      → (last_close : F) → (low_balance : Bool) → Action (Linked F) (Multipliers F)
  calculate_amount_multiplier position opposite_position last_close low_balance p =
      elim p.opposite [
        | none ↦ (err Error.unlinked_position, p)
        | some _ ↦ elim position.entry_price [
          | none ↦ returned p
          | some entry_price ↦
              if fl.eq entry_price (int 0)
              then returned p
              else returned (adjust entry_price position opposite_position last_close low_balance p)
        ]
      ]
