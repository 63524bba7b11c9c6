-- ===== src/TruncateBreaker/Tests.antt =====
-- A concrete storm, and the theorem at it.
use grid_bot_validation.Prelude.{ℕ, ◌+◌, ◌≤◌, ◌≡◌, refl, List, [], ◌∷◌, arith}
use grid_bot_validation.Decimal.Fixed.{FixedDec, fixed_decimals, dec_tenths, fixed_dec-IsOrdered}
use grid_bot_validation.Backtest.{OrderSide}
use grid_bot_validation.TruncateBreaker.{
  ScopeKey, BreakerConfig, breaker, evict_old, blocked_until, count_event, record_until,
}
use grid_bot_validation.TruncateBreaker.Counts.{count_between}
use grid_bot_validation.TruncateBreaker.Storm.{attempt, sent, InTime}
use grid_bot_validation.TruncateBreaker.Bound.{sent-bound}

abbrev config : BreakerConfig
config = record { max_consecutive = 3; window = 60; cooldown = 60 }

abbrev key : ScopeKey FixedDec
key = (OrderSide.sell, dec_tenths 845)

abbrev other_key : ScopeKey FixedDec
other_key = (OrderSide.sell, dec_tenths 846)

abbrev storm : List (ScopeKey FixedDec × ℕ)
storm = (key, 10) ∷ (key, 11) ∷ (other_key, 11) ∷ (key, 12) ∷ (key, 13) ∷ (key, 71) ∷ (key, 72) ∷ []

-- Three are sent, then none until the cooldown is over.
storm_run : sent key storm (breaker config) ≡ 10 ∷ 11 ∷ 12 ∷ 72 ∷ []
unfolding sent attempt blocked_until record_until count_event evict_old
storm_run = refl

storm-InTime : InTime 0 storm
unfolding InTime
storm-InTime = (
  omega arith,
  (omega arith, (omega arith, (omega arith, (omega arith, (omega arith, (omega arith, tt)))))),
)

sent-bound_example : count_between 10 (10 + 60) (sent key storm (breaker config)) ≤ 3
sent-bound_example =
    sent-bound fixed_dec-IsOrdered config 60 key storm 0 10 (omega arith) (omega arith)
      (omega arith) storm-InTime
