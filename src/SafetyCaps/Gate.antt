-- ===== src/SafetyCaps/Gate.antt =====
-- The two place-path gates against a statement of what they promise.
use grid_bot_validation.Prelude.{ℕ, ◌<◌, ◌≡◌, true, Option, some, none, arith, ◌↔◌}
use grid_bot_validation.Prelude.Int.{ℤ, ◌≤ℤ◌}
use grid_bot_validation.SafetyCaps.{SafetyCaps, allow_open, allow_reduce_only}

-- A cap that is not set admits every value.
abbrev pub Below : Option ℕ → ℕ → Type 0
Below none n = Unit {0}
Below (some cap) n = n < cap

abbrev pub Below_ℤ : Option ℤ → ℤ → Type 0
Below_ℤ none v = Unit {0}
Below_ℤ (some cap) v = ¬ (cap ≤ℤ v)

-- With the caps on, an opening order passes exactly if the notional and the number of open orders
-- are both strictly below their caps, a closing order exactly if the number of open orders is; so
-- the notional cap never holds a close back.
pub gate_iff :
    (s : SafetyCaps) (notional : ℤ) (count : ℕ)
    → s.enabled ≡ true
    → (((allow_open s notional count).allowed ≡ true)
        ↔ (Below_ℤ s.max_notional_per_symbol notional × Below s.max_open_orders count))
      × (((allow_reduce_only s count).allowed ≡ true) ↔ Below s.max_open_orders count)
unfolding allow_open allow_reduce_only
gate_iff s notional count on = ground arith
