-- ===== src/Executor/Samples.antt =====
-- An executor, an exchange and a batch that the tests of several modules run.
use grid_bot_validation.Prelude.{ℕ, ◌+◌, false, none, some, List, [], ◌∷◌}
use grid_bot_validation.Text.{Text}
use grid_bot_validation.Decimal.Fixed.{FixedDec, dec_tenths}
use grid_bot_validation.Backtest.{OrderSide, OrderDirection}
use grid_bot_validation.Executor.{Exchange, Answer, Intent, IntentExecutor}

-- "x (ErrCode: 10003)"
abbrev pub auth_text : Text
auth_text =
    120 ∷ 32 ∷ 40 ∷ 69 ∷ 114 ∷ 114 ∷ 67 ∷ 111 ∷ 100 ∷ 101 ∷ 58 ∷ 32 ∷ 49 ∷ 48 ∷ 48 ∷ 48 ∷ 51 ∷ 41
    ∷ []

-- An exchange that refuses every order with an auth error; the world is the number of its calls.
abbrev pub refusing : Exchange FixedDec ℕ
refusing = record {
  now_utc_ms = λ w. (1_780_000_000_000, w);
  clock = λ w. (w, w);
  place_order = λ r w. (Answer.raised auth_text, w + 1);
  cancel_order = λ c w. (Answer.returned false, w + 1);
}

abbrev pub executor : IntentExecutor
executor = record {
  shadow_mode = false;
  position_idx_long = 1;
  position_idx_short = 2;
  max_auth_failures = 2;
  auth_failure_count = 0;
  auth_cooldown = false;
  on_cooldown_entered = some 0;
  safety_caps = none;
  health_metrics = none;
}

abbrev pub place : Intent FixedDec
place = Intent.place (record {
  symbol = 88 ∷ [];
  side = OrderSide.buy;
  price = dec_tenths 990;
  qty = dec_tenths 10;
  direction = OrderDirection.long;
  reduce_only = false;
  client_order_id = 97 ∷ 98 ∷ [];
  order_link_id = none;
  post_only = false;
})

abbrev pub batch : List (Intent FixedDec)
batch = place ∷ Intent.cancel (record { symbol = 88 ∷ []; order_id = 49 ∷ [] }) ∷ place ∷ place ∷ []
