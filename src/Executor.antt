-- ===== src/Executor.antt =====
-- The intent executor, apps/gridbot/src/gridbot/executor.py, and the link ids that it makes,
-- apps/gridbot/src/gridbot/order_link_id.py. The exchange's client and the clocks are parameters, on a
-- state of the world. Log lines, their throttle and the time stamps of results are left out; the health
-- metrics are the log of the calls that record them.
pub mod Errors
pub mod Links
pub mod Cooldown
pub mod Samples
mod Tests
use grid_bot_validation.Prelude.{
  ℕ, ◌+◌, ltb, leb, Bool, true, false, not, ◌&&◌, Option, none, some, List, [], ◌∷◌, ◌++◌, length,
  if◌then◌else◌,
}
use grid_bot_validation.Text.{Text, decimal, dash}
use grid_bot_validation.Outcome.{Error, Action, Result, ok, err, ◌>>=◌, pure}
use grid_bot_validation.Backtest.{OrderSide, OrderDirection}
use grid_bot_validation.SafetyCaps.{SafetyCaps, rate_limited, record_accepted_submission}
use grid_bot_validation.Executor.Errors.{
  Category, classify_error, rest_code, is_auth_error, rate_limit_text,
}

pub data Metric : Type 0 where
  rest_error : Category → Metric
  place : (shadow : Bool) → Metric
  reject : Category → Metric
  cancel : (success : Bool) → Metric

-- What the executor reads of a PlaceLimitIntent and of a CancelIntent.
pub record PlaceLimitIntent (D : Type 0) : Type 0 where
  pub symbol : Text
  pub side : OrderSide
  pub price : D
  pub qty : D
  pub direction : OrderDirection
  pub reduce_only : Bool
  pub client_order_id : Text
  pub order_link_id : Option Text
  pub post_only : Bool

pub record CancelIntent : Type 0 where
  pub symbol : Text
  pub order_id : Text

pub data Intent (D : Type 0) : Type 0 where
  place : PlaceLimitIntent D → Intent D
  cancel : CancelIntent → Intent D

-- The arguments of `place_order`, but for the order type, which is always "Limit"; `post_only` is for
-- "PostOnly" in place of "GTC".
pub record PlaceRequest (D : Type 0) : Type 0 where
  pub symbol : Text
  pub side : OrderSide
  pub qty : D
  pub price : D
  pub reduce_only : Bool
  pub position_idx : ℕ
  pub order_link_id : Text
  pub post_only : Bool

-- The answer of a call: a value, or an exception with its text.
pub data Answer (A : Type 0) : Type 0 where
  returned : A → Answer A
  raised : Text → Answer A

-- The client and the clocks, milliseconds of UTC and nanoseconds of the monotonic clock.
pub record Exchange (D W : Type 0) : Type 0 where
  pub now_utc_ms : W → ℕ × W
  pub clock : W → ℕ × W
  pub place_order : PlaceRequest D → W → Answer (Option Text) × W
  pub cancel_order : CancelIntent → W → Answer Bool × W

-- `on_cooldown_entered` is the number of its calls so far, `none` without a callback.
pub record IntentExecutor : Type 0 where
  pub shadow_mode : Bool
  pub position_idx_long : ℕ
  pub position_idx_short : ℕ
  pub max_auth_failures : ℕ
  pub auth_failure_count : ℕ
  pub auth_cooldown : Bool
  pub on_cooldown_entered : Option ℕ
  pub safety_caps : Option SafetyCaps
  pub health_metrics : Option (List Metric)

pub record OrderResult : Type 0 where
  pub success : Bool
  pub order_id : Option Text
  pub order_link_id : Option Text
  pub error : Option Text

pub record CancelResult : Type 0 where
  pub success : Bool
  pub error : Option Text

pub data ExecutionResult : Type 0 where
  order : OrderResult → ExecutionResult
  cancel : CancelResult → ExecutionResult

-- `_BYBIT_ORDER_LINK_ID_MAX`
abbrev pub order_link_id_max : ℕ
order_link_id_max = 36

-- `make_order_link_id`, with the clock read
unfoldable pub make_order_link_id : Text → (now_ms : ℕ) → Result Text
make_order_link_id client_order_id now_ms =
    let wire_id = client_order_id ++ dash ∷ decimal now_ms in
    if ltb order_link_id_max (length wire_id) then err Error.link_id_too_long else ok wire_id

-- "shadow_"
abbrev shadow_text : Text
shadow_text = 115 ∷ 104 ∷ 97 ∷ 100 ∷ 111 ∷ 119 ∷ 95 ∷ []

abbrev pub add_metric : Metric → Option (List Metric) → Option (List Metric)
add_metric m none = none
add_metric m (some ms) = some (ms ++ m ∷ [])

abbrev pub called : Option ℕ → Option ℕ
called none = none
called (some n) = some (n + 1)

abbrev map_result : {A B : Type 0} → (A → B) → Result A → Result B
map_result f (ok a) = ok (f a)
map_result f (err e) = err e

-- `reset_auth_cooldown`
unfoldable pub reset_auth_cooldown : IntentExecutor → IntentExecutor
reset_auth_cooldown s = record s { auth_failure_count = 0; auth_cooldown = false }

abbrev pub record_metric : Metric → IntentExecutor → IntentExecutor
record_metric m s = record s { health_metrics = add_metric m s.health_metrics }

-- The part of `_handle_error` for an auth error: the count, and the cooldown at its maximum.
unfoldable pub count_failure : IntentExecutor → IntentExecutor
count_failure s =
    let n = s.auth_failure_count + 1 in
    if leb s.max_auth_failures n && not s.auth_cooldown
    then record s {
      auth_failure_count = n;
      auth_cooldown = true;
      on_cooldown_entered = called s.on_cooldown_entered;
    }
    else record s { auth_failure_count = n }

unfoldable pub handle_error : Text → IntentExecutor → IntentExecutor
handle_error error s =
    let s' = record_metric (Metric.rest_error (rest_code (classify_error error))) s in
    if is_auth_error error then count_failure s' else record s' { auth_failure_count = 0 }

-- `_get_position_idx`
unfoldable pub get_position_idx : IntentExecutor → OrderDirection → ℕ
get_position_idx s OrderDirection.long = s.position_idx_long
get_position_idx s OrderDirection.short = s.position_idx_short
get_position_idx s OrderDirection.other = 0

abbrev pub ExecState : Type 0 → Type 0
ExecState W = IntentExecutor × W

abbrev placed_result : Text → Option Text → OrderResult
placed_result link order_id = record {
  success = true;
  order_id = order_id;
  order_link_id = some link;
  error = none;
}

abbrev failed_result : Text → Text → OrderResult
failed_result link error = record {
  success = false;
  order_id = none;
  order_link_id = some link;
  error = some error;
}

module _ {W : Type 0} where
  -- What follows the answer of the client.
  unfoldable pub after_cancel : Answer Bool → ExecState W → CancelResult × ExecState W
  after_cancel (Answer.returned true) (s, w) = (
    record { success = true; error = none },
    (record_metric (Metric.cancel true) (record s { auth_failure_count = 0 }), w),
  )
  after_cancel (Answer.returned false) (s, w) =
      (record { success = false; error = none }, (record_metric (Metric.cancel false) s, w))
  after_cancel (Answer.raised error) (s, w) = (
    record { success = false; error = some error },
    (record_metric (Metric.cancel false) (handle_error error s), w),
  )

module _ {D : Type 0} where
  abbrev request : IntentExecutor → PlaceLimitIntent D → Text → PlaceRequest D
  request s intent link = record {
    symbol = intent.symbol;
    side = intent.side;
    qty = intent.qty;
    price = intent.price;
    reduce_only = intent.reduce_only;
    position_idx = get_position_idx s intent.direction;
    order_link_id = link;
    post_only = intent.post_only;
  }

module _ {D W : Type 0} where
  -- `intent.order_link_id or make_order_link_id(intent.client_order_id)`
  unfoldable pub link_id : Exchange D W → PlaceLimitIntent D → Option Text → W → Result Text × W
  link_id x intent (some (c ∷ cs)) w = (ok (c ∷ cs), w)
  link_id x intent _ w =
      let (now_ms, w') = x.now_utc_ms w in (make_order_link_id intent.client_order_id now_ms, w')

  -- `record_accepted_submission(self._clock())`, with safety caps
  unfoldable pub record_submission : Exchange D W → Option SafetyCaps → W → Option SafetyCaps × W
  record_submission x none w = (none, w)
  record_submission x (some caps) w =
      let (now, w') = x.clock w in (some (record_accepted_submission caps now), w')

  -- What follows the answer of the client.
  unfoldable pub after_place :
      Exchange D W → Text → Answer (Option Text) → ExecState W → OrderResult × ExecState W
  after_place x link (Answer.returned order_id) (s, w) =
      let (caps, w') = record_submission x s.safety_caps w in
      let s' = record s { auth_failure_count = 0; safety_caps = caps } in
      (placed_result link order_id, (record_metric (Metric.place false) s', w'))
  after_place x link (Answer.raised error) (s, w) = (
    failed_result link error,
    (record_metric (Metric.reject (classify_error error)) (handle_error error s), w),
  )

  unfoldable pub submit_place :
      Exchange D W → PlaceLimitIntent D → Text → ExecState W → OrderResult × ExecState W
  submit_place x intent link (s, w) =
      let (answer, w') = x.place_order (request s intent link) w in
      after_place x link answer (s, w')

  -- The rate limit before the submission
  unfoldable pub checked_place :
      Exchange D W
      → PlaceLimitIntent D
      → Text
      → Option SafetyCaps
      → ExecState W
      → OrderResult × ExecState W
  checked_place x intent link none (s, w) = submit_place x intent link (s, w)
  checked_place x intent link (some caps) (s, w) =
      let (now, w') = x.clock w in
      let (limited, caps') = rate_limited caps now in
      let s' = record s { safety_caps = some caps' } in
      if limited
      then (
        failed_result link rate_limit_text,
        (record_metric (Metric.reject Category.rate_limit) s', w'),
      )
      else submit_place x intent link (s', w')

  -- `execute_place` after the link id
  unfoldable pub place_with :
      Exchange D W → PlaceLimitIntent D → Text → ExecState W → OrderResult × ExecState W
  place_with x intent link (s, w) =
      if s.shadow_mode
      then (
        placed_result link (some (shadow_text ++ intent.client_order_id)),
        (record_metric (Metric.place true) s, w),
      )
      else checked_place x intent link s.safety_caps (s, w)

  abbrev with_link :
      Exchange D W
      → PlaceLimitIntent D
      → Result Text × W
      → IntentExecutor
      → Result OrderResult × ExecState W
  with_link x intent (err e, w) s = (err e, (s, w))
  with_link x intent (ok link, w) s = let (r, s') = place_with x intent link (s, w) in (ok r, s')

  unfoldable pub execute_place :
      Exchange D W → PlaceLimitIntent D → Action (ExecState W) OrderResult
  execute_place x intent (s, w) = with_link x intent (link_id x intent intent.order_link_id w) s

  unfoldable pub execute_cancel :
      Exchange D W → CancelIntent → ExecState W → CancelResult × ExecState W
  execute_cancel x intent (s, w) =
      if s.shadow_mode
      then (record { success = true; error = none }, (s, w))
      else let (answer, w') = x.cancel_order intent w in after_cancel answer (s, w')

  -- One intent of a batch
  unfoldable pub execute_intent : Exchange D W → Intent D → Action (ExecState W) ExecutionResult
  execute_intent x (Intent.place p) s =
      let (r, s') = execute_place x p s in (map_result ExecutionResult.order r, s')
  execute_intent x (Intent.cancel c) s =
      let (r, s') = execute_cancel x c s in (ok (ExecutionResult.cancel r), s')

  unfoldable pub execute_batch :
      Exchange D W → List (Intent D) → Action (ExecState W) (List ExecutionResult)
  execute_batch x [] = pure []
  execute_batch x (i ∷ is') =
      execute_intent x i >>= λ r. execute_batch x is' >>= λ rs. pure (r ∷ rs)
