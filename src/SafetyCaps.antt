-- ===== src/SafetyCaps.antt =====
-- The production safety caps of one strategy, apps/gridbot/src/gridbot/safety_caps.py.
-- Money is an exact Decimal in the source: here an integer number of its smallest unit. The
-- monotonic clock counts nanoseconds and a UTC date is its day number, so both are naturals.
mod Tests
pub mod Window
pub mod Breaker
pub mod Gate
use grid_bot_validation.Prelude.{
  ℕ, ◌+◌, Bool, true, false, ◌&&◌, not, ◌||◌, Option, none, some, List, [], ◌∷◌, ◌++◌, ltb, leb,
  if◌then◌else◌, length,
}
use grid_bot_validation.Prelude.Int.{ℤ, pos, ◌-ℤ◌, leb_ℤ}

pub record SafetyCapsConfig : Type 0 where
  pub enabled : Bool
  pub max_notional_per_symbol : Option ℤ
  pub max_open_orders : Option ℕ
  pub session_loss_limit : Option ℤ
  pub session_loss_auto_reset_utc_midnight : Bool
  pub max_orders_per_minute : Option ℕ

-- The values of `CapDecision.reason` that the two gates produce.
pub data Reason : Type 0 where
  none_given max_notional max_open_orders : Reason

pub record CapDecision : Type 0 where
  pub allowed : Bool
  pub reason : Reason

pub record SafetyCaps : Type 0 where
  pub config : SafetyCapsConfig
  pub open config use *
  pub loss_tripped : Bool
  pub loss_reset_utc_date : Option ℕ
  pub rate_window : List ℕ

unfoldable pub init : SafetyCapsConfig → SafetyCaps
init config = record {
  config = config;
  loss_tripped = false;
  loss_reset_utc_date = none;
  rate_window = [];
}

abbrev allowed_decision : CapDecision
allowed_decision = record { allowed = true; reason = Reason.none_given }

abbrev blocked : Reason → CapDecision
blocked r = record { allowed = false; reason = r }

-- `cap is not None and value >= cap`, for the two kinds of number.
abbrev at_cap_ℤ : Option ℤ → ℤ → Bool
at_cap_ℤ none v = false
at_cap_ℤ (some cap) v = leb_ℤ cap v

abbrev at_cap : Option ℕ → ℕ → Bool
at_cap none v = false
at_cap (some cap) v = leb cap v

pub allow_open : SafetyCaps → (total_notional : ℤ) (open_order_count : ℕ) → CapDecision
allow_open s total_notional open_order_count =
    if not s.enabled
    then allowed_decision
    else if at_cap_ℤ s.max_notional_per_symbol total_notional
    then blocked Reason.max_notional
    else if at_cap s.max_open_orders open_order_count
    then blocked Reason.max_open_orders
    else allowed_decision

pub allow_reduce_only : SafetyCaps → (open_order_count : ℕ) → CapDecision
allow_reduce_only s open_order_count =
    if not s.enabled
    then allowed_decision
    else if at_cap s.max_open_orders open_order_count
    then blocked Reason.max_open_orders
    else allowed_decision

-- The reset date, seeded by the first call.
abbrev pub seeded : Option ℕ → ℕ → ℕ
seeded none today = today
seeded (some d) today = d

-- The part of `check_loss_breaker` before its last test: the seed and the midnight reset.
pub roll_date : SafetyCaps → (today : ℕ) → SafetyCaps
roll_date s today =
    let date = seeded s.loss_reset_utc_date today in
    if s.session_loss_auto_reset_utc_midnight && ltb date today
    then record s { loss_tripped = false; loss_reset_utc_date = some today }
    else record s { loss_reset_utc_date = some date }

-- The last test: the latch closes on a loss at the limit, and tells so once.
pub trip : SafetyCaps → (cap pnl : ℤ) → Bool × SafetyCaps
trip s cap pnl =
    if not s.loss_tripped && leb_ℤ pnl (pos 0 -ℤ cap)
    then (true, record s { loss_tripped = true })
    else (false, s)

pub check_loss_breaker : SafetyCaps → (session_realized_pnl : ℤ) (today : ℕ) → Bool × SafetyCaps
unfolding roll_date trip
check_loss_breaker s pnl today = if not s.enabled then (false, s) else elim s.session_loss_limit [
  | none ↦ (false, s)
  | some cap ↦ trip (roll_date s today) cap pnl
]

-- `_RATE_WINDOW_SECONDS`, 60 s in nanoseconds.
abbrev pub rate_window_length : ℕ
rate_window_length = 60_000_000_000

unfoldable pub record_accepted_submission : SafetyCaps → ℕ → SafetyCaps
record_accepted_submission s now = if not s.enabled then s else elim s.max_orders_per_minute [
  | none ↦ s
  | some _ ↦ record s { rate_window = s.rate_window ++ now ∷ [] }
]

-- The `while` loop: `popleft` as long as the oldest entry is at most `now - 60 s`. The test is
-- written as a sum, since the clock is a natural.
pub evict : (now : ℕ) → List ℕ → List ℕ
evict now [] = []
evict now (t ∷ ts) =
    let rest = evict now ts in if leb (t + rate_window_length) now then rest else t ∷ ts

unfoldable pub rate_limited : SafetyCaps → ℕ → Bool × SafetyCaps
unfolding evict
rate_limited s now = if not s.enabled then (false, s) else elim s.max_orders_per_minute [
  | none ↦ (false, s)
  | some cap ↦
      let window = evict now s.rate_window in
      (leb cap (length window), record s { rate_window = window })
]
