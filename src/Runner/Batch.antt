-- ===== src/Runner/Batch.antt =====
-- The batches of intents, the cancels, the retries and the updates of orders in
-- apps/gridbot/src/gridbot/runner.py.
use grid_bot_validation.Prelude.{
  Bool, true, false, Option, none, some, List, [], ◌∷◌, ◌++◌, if◌then◌else◌,
}
use grid_bot_validation.Text.{Text}
use grid_bot_validation.Dict.{Dict, get, put, values}
use grid_bot_validation.Outcome.{Action, Result, ok, err, ◌>>◌}
use grid_bot_validation.Decimal.{Decimals}
use grid_bot_validation.TruncateBreaker.{is_blocked}
use grid_bot_validation.Executor.{
  PlaceLimitIntent, CancelIntent, OrderResult, CancelResult, ExecState, execute_place,
  execute_cancel,
}
use grid_bot_validation.Runner.{
  TrackedOrder, GeneratedIntent, Limits, StrategyRunner, RunState, Outside,
}
use grid_bot_validation.Runner.Orders.{
  mark, mark_placed, mark_filled, mark_cancelled, get_limit_orders, find_tracked_order,
}
use grid_bot_validation.Runner.Guard.{CapBlock, evaluate_safety_caps, is_good_to_place}
use grid_bot_validation.Runner.Place.{after_success, execute_place_intent, report}

abbrev has : {A : Type 0} → Option A → Bool
has none = false
has (some a) = true

pub data UpdateStatus : Type 0 where
  filled cancelled working other : UpdateStatus

-- The cancels and the places of a list of intents
abbrev pub cancels_of : {D : Type 0} → List (GeneratedIntent D) → List (Bool × CancelIntent)
cancels_of [] = []
cancels_of (GeneratedIntent.cancel b c ∷ is') = (b, c) ∷ cancels_of is'
cancels_of (GeneratedIntent.place p ∷ is') = cancels_of is'

abbrev pub places_of : {D : Type 0} → List (GeneratedIntent D) → List (PlaceLimitIntent D)
places_of [] = []
places_of (GeneratedIntent.cancel b c ∷ is') = places_of is'
places_of (GeneratedIntent.place p ∷ is') = p ∷ places_of is'

-- The intents that a latched SAME ORDER error lets through
abbrev pub healing : {D : Type 0} → List (GeneratedIntent D) → List (GeneratedIntent D)
healing [] = []
healing (GeneratedIntent.cancel true c ∷ is') = GeneratedIntent.cancel true c ∷ healing is'
healing (GeneratedIntent.cancel false c ∷ is') = healing is'
healing (GeneratedIntent.place p ∷ is') = healing is'

module _ {D : Type 0} where
  -- `on_retry_cancel_for_prefix`, after a cancel that heals a duplicate
  abbrev pub drained : Bool → Option (Text × TrackedOrder D) → StrategyRunner D → StrategyRunner D
  drained true (some (key, t)) s = record s {
    drained_prefixes = s.drained_prefixes ++ t.client_order_id ∷ [];
  }
  drained _ found s = s

  -- The status of an order update, as `on_order_update` tells them apart: 'Filled', 'Cancelled' or
  -- 'Rejected', 'New' or 'PartiallyFilled', and the others.
  abbrev updated : UpdateStatus → Option Text → TrackedOrder D → TrackedOrder D
  updated UpdateStatus.filled order_id t = mark_filled t
  updated UpdateStatus.cancelled order_id t = mark_cancelled t
  updated UpdateStatus.working order_id t = if has t.order_id then t else mark_placed order_id t
  updated UpdateStatus.other order_id t = t

  -- What `on_order_update` does to the tracked orders
  unfoldable pub update_tracked :
      UpdateStatus
      → (order_link_id order_id : Option Text) → Dict (TrackedOrder D)
      → Dict (TrackedOrder D)
  update_tracked status order_link_id order_id orders =
      mark (updated status order_id) (find_tracked_order order_link_id order_id orders) orders

module _ {D W : Type 0} where
  abbrev pub after_cancel_answer :
      (is_duplicate : Bool) → CancelIntent → CancelResult → RunState D W → RunState D W
  after_cancel_answer is_duplicate c result (s, w) =
      let found = find_tracked_order none (some c.order_id) s.tracked_orders in
      if result.success
      then (
        drained is_duplicate found
            (record s { tracked_orders = mark mark_cancelled found s.tracked_orders }),
        w,
      )
      else report (GeneratedIntent.cancel is_duplicate c) result.error (s, w)

  unfoldable pub execute_cancel_intent :
      Outside D W → (is_duplicate : Bool) → CancelIntent → RunState D W → RunState D W
  execute_cancel_intent x is_duplicate c (s, w) =
      let (result, (e', w')) = execute_cancel x.exchange c (s.executor, w) in
      after_cancel_answer is_duplicate c result (record s { executor = e' }, w')

  -- The first loop of `_execute_intents`; a cooldown ends it, and the whole batch.
  unfoldable pub execute_cancels :
      Outside D W → List (Bool × CancelIntent) → RunState D W → RunState D W
  execute_cancels x [] st = st
  execute_cancels x (c ∷ cs) st =
      let rest = execute_cancels x cs (execute_cancel_intent x c.0 c.1 st) in
      if st.0.executor.auth_cooldown then st else rest

module _ {D W : Type 0} ⦃dec : Decimals D⦄ where
  abbrev pub limits_of : RunState D W → Limits D
  limits_of st = get_limit_orders (values st.0.tracked_orders)

  -- The second loop, with the limits of the first placement; each later one takes them anew.
  unfoldable pub execute_places :
      Outside D W → List (PlaceLimitIntent D) → Limits D → Action (RunState D W) (Unit {0})
  execute_places x [] limits st = (ok tt, st)
  execute_places x (p ∷ ps) limits st =
      let rest =
        (execute_place_intent x p limits >> λ st'. execute_places x ps (limits_of st') st') st in
      if st.0.executor.auth_cooldown then (ok tt, st) else rest

  abbrev pub limits_after : List (Bool × CancelIntent) → Limits D → RunState D W → Limits D
  limits_after [] limits st = limits
  limits_after (c ∷ cs) limits st = limits_of st

  unfoldable pub execute_intents :
      Outside D W → List (GeneratedIntent D) → Limits D → Action (RunState D W) (Unit {0})
  execute_intents x intents limits st =
      if st.0.executor.auth_cooldown
      then (ok tt, st)
      else let cs = cancels_of intents in
        let st' = execute_cancels x cs st in
        execute_places x (places_of intents) (limits_after cs limits st') st'

  -- `_execute_generated_intents`; of no intents nothing happens, as in a batch.
  unfoldable pub execute_generated_intents :
      Outside D W → List (GeneratedIntent D) → Limits D → Action (RunState D W) (Unit {0})
  execute_generated_intents x intents limits st =
      execute_intents x (if st.0.same_order_error then healing intents else intents) limits st

-- The results of `retry_dispatch_place`: a result of the executor, or a sentinel.
pub data RetryOutcome : Type 0 where
  from_executor : OrderResult → RetryOutcome
  same_order_blocked truncate_breaker_blocked duplicate_order_blocked : RetryOutcome
  safety_cap : CapBlock → RetryOutcome

module _ {D : Type 0} where
  -- `tracked.mark_placed`, if the order is tracked
  abbrev pub place_tracked :
      PlaceLimitIntent D
      → Option Text
      → Option (TrackedOrder D)
      → StrategyRunner D
      → StrategyRunner D
  place_tracked intent order_id none s = s
  place_tracked intent order_id (some t) s = record s {
    tracked_orders = put s.tracked_orders intent.client_order_id (mark_placed order_id t);
  }

module _ {D W : Type 0} ⦃dec : Decimals D⦄ where
  abbrev pub retried :
      PlaceLimitIntent D
      → StrategyRunner D
      → Result OrderResult × ExecState W
      → Result RetryOutcome × RunState D W
  retried intent s (err e, (e', w)) = (err e, (record s { executor = e' }, w))
  retried intent s (ok result, (e', w)) =
      let s' = record s { executor = e' } in
      let found = get s.tracked_orders intent.client_order_id in
      (
        ok (RetryOutcome.from_executor result),
        (
          if result.success
              then after_success intent (place_tracked intent result.order_id found s')
              else s',
          w,
        ),
      )

  abbrev pub retry_good :
      Outside D W → PlaceLimitIntent D → Bool × RunState D W → Result RetryOutcome × RunState D W
  retry_good x intent (false, st) = (ok RetryOutcome.duplicate_order_blocked, st)
  retry_good x intent (true, (s, w)) =
      retried intent s (execute_place x.exchange intent (s.executor, w))

  abbrev pub retry_capped :
      Outside D W
      → PlaceLimitIntent D
      → Option CapBlock
      → RunState D W
      → Result RetryOutcome × RunState D W
  retry_capped x intent (some block) st = (ok (RetryOutcome.safety_cap block), st)
  retry_capped x intent none st = retry_good x intent (is_good_to_place x intent (limits_of st) st)

  abbrev pub retry_unlatched :
      Outside D W → PlaceLimitIntent D → RunState D W → Result RetryOutcome × RunState D W
  retry_unlatched x intent (s, w) =
      let (now, w') = x.exchange.clock w in
      let (blocked, b) = is_blocked (intent.side, intent.price) now s.truncate_breaker in
      let st : RunState D W = (record s { truncate_breaker = b }, w') in
      if blocked
      then (ok RetryOutcome.truncate_breaker_blocked, st)
      else retry_capped x intent (evaluate_safety_caps st.0 intent (limits_of st)) st

  unfoldable pub retry_dispatch_place :
      Outside D W → PlaceLimitIntent D → Action (RunState D W) RetryOutcome
  retry_dispatch_place x intent st =
      if st.0.same_order_error
      then (ok RetryOutcome.same_order_blocked, st)
      else retry_unlatched x intent st
