-- ===== src/SafetyCaps/Tests.antt =====
-- Concrete runs of the safety caps, and the theorems at inputs that meet their hypotheses.
use grid_bot_validation.Prelude.{
  ℕ, ◌+◌, ◌≤◌, ◌≡◌, refl, true, false, none, some, List, [], ◌∷◌, arith,
}
use grid_bot_validation.Prelude.Int.{pos, negsuc, ◌-ℤ◌}
use grid_bot_validation.SafetyCaps.{
  SafetyCaps, SafetyCapsConfig, Reason, init, record_accepted_submission, allow_open, rate_limited,
}
use grid_bot_validation.SafetyCaps.Window.{
  Attempt, submit, submit_all, count_in, submit_all-rate_bound,
}
use grid_bot_validation.SafetyCaps.Breaker.{Update, fire_count, after_updates, fire_count-day}

abbrev config : SafetyCapsConfig
config = record {
  enabled = true;
  max_notional_per_symbol = some (pos 1000);
  max_open_orders = some 5;
  session_loss_limit = some (pos 100);
  session_loss_auto_reset_utc_midnight = true;
  max_orders_per_minute = some 2;
}

abbrev caps : SafetyCaps
caps = record {
  config = config;
  loss_tripped = false;
  loss_reset_utc_date = none;
  rate_window = 10 ∷ 20_000_000_000 ∷ [];
}

abbrev latched : SafetyCaps
latched = record caps { loss_tripped = true; loss_reset_utc_date = some 3 }

abbrev attempt : ℕ → Attempt
attempt t = record { asked = t; accepted = true; recorded = t + 1 }

abbrev attempts : List Attempt
attempts = attempt 0 ∷ attempt 5 ∷ attempt 30_000_000_000 ∷ attempt 60_000_000_001 ∷ []

-- The third attempt is refused, and the fourth goes through once the first stamp is a minute old.
submit_all_run : (submit_all (init config) attempts).0 ≡ 1 ∷ 6 ∷ 60_000_000_002 ∷ []
unfolding submit_all submit init rate_limited record_accepted_submission
submit_all_run = refl

submit_all-rate_bound_example : count_in 60_000_000_000 (submit_all (init config) attempts).0 ≤ 2
submit_all-rate_bound_example =
    submit_all-rate_bound 2 0 60_000_000_000 config attempts refl refl (omega arith)

-- Two losses at the limit on one day fire the breaker once.
bad_day : List Update
bad_day =
    record { pnl = negsuc 10; today = 3 }
    ∷ record { pnl = negsuc 99; today = 3 }
    ∷ record { pnl = negsuc 500; today = 3 }
    ∷ []

fire_count-day_example :
    (fire_count caps bad_day ≡ 1) × ((after_updates caps bad_day).loss_tripped ≡ true)
unfolding bad_day ◌-ℤ◌
fire_count-day_example = fire_count-day (pos 100) 3 caps bad_day refl refl refl (omega arith)

gate_run : (allow_open caps (pos 1000) 4).reason ≡ Reason.max_notional
unfolding allow_open
gate_run = refl
