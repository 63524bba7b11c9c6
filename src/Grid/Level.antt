-- ===== src/Grid/Level.antt =====
-- The levels and the state of a `Grid`.
use grid_bot_validation.Prelude.{ℕ, Bool, true, false, Option, none, some, List, [], ◌∷◌, map}

pub data GridSideType : Type 0 where
  buy sell wait : GridSideType

-- The dict `{'side': ..., 'price': ...}`.
pub record Level (F : Type 0) : Type 0 where
  pub side : GridSideType
  pub price : F

-- A list of levels handed to `on_change`, with the time stamp of the event in hand.
pub record Change (F : Type 0) : Type 0 where
  pub grid : List (Level F)
  pub exchange_ts : Option ℕ

-- `changes` holds the calls of `on_change`, the latest first; `none` is a grid with no callback.
-- `tick_size` is the float of the Decimal that the source keeps and converts at each use.
pub record Grid (F : Type 0) : Type 0 where
  pub levels : List (Level F)
  pub tick_size : F
  pub grid_count : ℕ
  pub grid_step : F
  pub rebalance_threshold : F
  pub original_anchor_price : Option F
  pub changes : Option (List (Change F))
  pub current_exchange_ts : Option ℕ

-- `Grid.__init__`; `observed` says whether an `on_change` is given.
pub init :
    {F : Type 0} (tick_size : F) (grid_count : ℕ) (grid_step rebalance_threshold : F)
    → (observed : Bool) → Grid F
init tick_size grid_count grid_step rebalance_threshold observed = record {
  levels = [];
  tick_size = tick_size;
  grid_count = grid_count;
  grid_step = grid_step;
  rebalance_threshold = rebalance_threshold;
  original_anchor_price = none;
  changes = elim observed [ true ↦ some [] | false ↦ none ];
  current_exchange_ts = none;
}

-- `side == 'Buy'` and so on.
abbrev pub is_side : GridSideType → GridSideType → Bool
is_side buy buy = true
is_side sell sell = true
is_side wait wait = true
is_side _ _ = false

abbrev pub prices : {F : Type 0} → List (Level F) → List F
prices = map λ l. l.price

abbrev pub sides : {F : Type 0} → List (Level F) → List GridSideType
sides = map λ l. l.side

-- An exception in the callback is swallowed, so a call of it always returns.
unfoldable pub notify_change : {F : Type 0} → Grid F → Grid F
notify_change g = elim g.changes [
  | none ↦ g
  | some log ↦ record g {
    changes = some (record { grid = g.levels; exchange_ts = g.current_exchange_ts } ∷ log);
  }
]
