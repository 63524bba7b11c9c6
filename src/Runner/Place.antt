-- ===== src/Runner/Place.antt =====
-- A placement of apps/gridbot/src/gridbot/runner.py, from the intent of the engine to what follows the
-- exchange's answer, and the placements of the retry queue.
use grid_bot_validation.Prelude.{
  ℕ, ◌+◌, leb, ◌&&◌, ◌||◌, not, Bool, true, false, Option, none, some, [], ◌∷◌, ◌++◌, length,
  if◌then◌else◌,
}
use grid_bot_validation.Text.{Text}
use grid_bot_validation.Dict.{get, put}
use grid_bot_validation.Outcome.{Action, Result, ok, err}
use grid_bot_validation.Decimal.{Decimals}
use grid_bot_validation.TruncateBreaker.{record_110017, record_success, evict_old}
use grid_bot_validation.Executor.Errors.{
  after_prefix, is_truncate_error, is_insufficient_balance, is_duplicate_link_error,
  is_network_error,
}
use grid_bot_validation.Executor.{PlaceLimitIntent, OrderResult, ExecState, link_id, execute_place}
use grid_bot_validation.Runner.{
  TrackedStatus, TrackedOrder, GeneratedIntent, Limits, StrategyRunner, RunState, Outside,
  at_direction,
}
use grid_bot_validation.Runner.Orders.{is_live}
use grid_bot_validation.Runner.Admit.{admit}
use grid_bot_validation.Runner.Guard.{clear_dirty}

-- "safety_cap"
abbrev pub safety_cap_text : Text
safety_cap_text = 115 ∷ 97 ∷ 102 ∷ 101 ∷ 116 ∷ 121 ∷ 95 ∷ 99 ∷ 97 ∷ 112 ∷ []

-- A test of an error text, false without one
abbrev pub on_error : (Text → Bool) → Option Text → Bool
on_error test none = false
on_error test (some error) = test error

abbrev pub is_found : {A : Type 0} → Option A → Bool
is_found none = false
is_found (some a) = true

abbrev pub is_safety_cap : Text → Bool
is_safety_cap error = is_found (after_prefix safety_cap_text error)

abbrev pub is_mixed_failure : Text → Bool
is_mixed_failure error =
    is_truncate_error error || is_duplicate_link_error error || is_network_error error

module _ {D : Type 0} where
  -- `self._tracked_orders[client_order_id] = tracked`
  abbrev pub track : PlaceLimitIntent D → TrackedOrder D → StrategyRunner D → StrategyRunner D
  track intent t s = record s { tracked_orders = put s.tracked_orders intent.client_order_id t }

  abbrev pub tracked_as :
      TrackedStatus
      → Option Text
      → Option (PlaceLimitIntent D)
      → PlaceLimitIntent D
      → TrackedOrder D
  tracked_as status order_id kept intent = record {
    client_order_id = intent.client_order_id;
    order_id = order_id;
    intent = kept;
    status = status;
  }

  abbrev pub link_of : TrackedStatus → Option (PlaceLimitIntent D) → Option Text
  link_of TrackedStatus.failed (some intent) = intent.order_link_id
  link_of _ _ = none

  -- The link id of the tracked order that failed under this client order id
  abbrev pub reusable_link : Option (TrackedOrder D) → Option Text
  reusable_link none = none
  reusable_link (some t) = link_of t.status t.intent

  abbrev pub is_tracked_live : Option (TrackedOrder D) → Bool
  is_tracked_live none = false
  is_tracked_live (some t) = is_live t.status

  -- `_record_placement_failure` after the clock: the window, and the call at the threshold
  abbrev pub add_failure : (now : ℕ) → StrategyRunner D → StrategyRunner D
  add_failure now s =
      let window =
        evict_old s.config.divergence_failure_mix_window now
          (s.placement_failure_window ++ now ∷ []) in
      if leb s.config.divergence_failure_mix_threshold (length window)
      then record s {
        placement_failure_window = [];
        failure_mixes = s.failure_mixes ++ length window ∷ [];
      }
      else record s { placement_failure_window = window }

module _ {D W : Type 0} where
  unfoldable pub record_placement_failure : Outside D W → Option Text → RunState D W → RunState D W
  record_placement_failure x error (s, w) =
      if not (s.config.divergence_detector_enabled && on_error is_mixed_failure error)
      then (s, w)
      else let (now, w') = x.exchange.clock w in (add_failure now s, w')

  -- `on_intent_failed`
  abbrev pub report : GeneratedIntent D → Option Text → RunState D W → RunState D W
  report intent error (s, w) =
      (record s { failed_intents = s.failed_intents ++ (intent, error) ∷ [] }, w)

  -- `_assign_wire_link_id`
  abbrev pub assign_wire_link_id :
      Outside D W → PlaceLimitIntent D → Option Text → Option Text → W → Result Text × W
  assign_wire_link_id x intent (some link) existing w = (ok link, w)
  assign_wire_link_id x intent none existing w = link_id x.exchange intent existing w

module _ {D : Type 0} where
  abbrev pub note_trip : Bool → PlaceLimitIntent D → StrategyRunner D → StrategyRunner D
  note_trip false intent s = s
  note_trip true intent s = record s {
    truncate_breaker_reconcile_count = s.truncate_breaker_reconcile_count + 1;
    tripped_directions =
        if s.config.truncate_breaker_reconcile
        then s.tripped_directions ++ intent.direction ∷ []
        else s.tripped_directions;
  }

module _ {D : Type 0} ⦃dec : Decimals D⦄ where
  -- What follows a success
  unfoldable pub after_success : PlaceLimitIntent D → StrategyRunner D → StrategyRunner D
  after_success intent s =
      let s' = record s {
        truncate_breaker = record_success (intent.side, intent.price) s.truncate_breaker;
      } in
      if intent.reduce_only then clear_dirty intent.direction s' else s'

module _ {D W : Type 0} ⦃dec : Decimals D⦄ where
  -- The part of `_execute_place_intent` for error 110017, after the failure is recorded
  unfoldable pub after_110017 : PlaceLimitIntent D → (now : ℕ) → RunState D W → RunState D W
  after_110017 assigned now (s, w) =
      let (tripped, b) = record_110017 (assigned.side, assigned.price) now s.truncate_breaker in
      let cleared = record assigned { order_link_id = none } in
      let s' = record s {
        position_dirty = at_direction assigned.direction true s.position_dirty;
        truncate_breaker = b;
      } in
      (
        note_trip tripped assigned
            (track assigned (tracked_as TrackedStatus.failed none (some cleared) assigned) s'),
        w,
      )

  -- What follows a refusal. The retry queue is told of it by `on_intent_failed`.
  unfoldable pub after_refusal :
      Outside D W → PlaceLimitIntent D → (now : ℕ) → Option Text → RunState D W → RunState D W
  after_refusal x assigned now error (s, w) =
      let s' = track assigned (tracked_as TrackedStatus.failed none (some assigned) assigned) s in
      if on_error is_safety_cap error
        || (not assigned.reduce_only && on_error is_insufficient_balance error)
      then (s', w)
      else if on_error is_truncate_error error
      then after_110017 assigned now (record_placement_failure x error (s', w))
      else report (GeneratedIntent.place assigned) error (record_placement_failure x error (s', w))

  abbrev pub after_answer :
      Outside D W → PlaceLimitIntent D → (now : ℕ) → OrderResult → RunState D W → RunState D W
  after_answer x assigned now result (s, w) =
      if result.success
      then (
        after_success assigned (
            track assigned
              (tracked_as TrackedStatus.placed result.order_id (some assigned) assigned) s),
        w,
      )
      else after_refusal x assigned now result.error (s, w)

  abbrev pub executed :
      Outside D W
      → PlaceLimitIntent D
      → (now : ℕ) → StrategyRunner D
      → Result OrderResult × ExecState W
      → Result (Unit {0}) × RunState D W
  executed x assigned now s (err e, (e', w)) = (err e, (record s { executor = e' }, w))
  executed x assigned now s (ok result, (e', w)) =
      (ok tt, after_answer x assigned now result (record s { executor = e' }, w))

  abbrev pub send_with :
      Outside D W
      → PlaceLimitIntent D
      → (now : ℕ) → StrategyRunner D
      → Result Text × W
      → Result (Unit {0}) × RunState D W
  send_with x intent now s (err e, w) = (err e, (s, w))
  send_with x intent now s (ok link, w) =
      let assigned = record intent { order_link_id = some link } in
      let pending = tracked_as TrackedStatus.pending none (some assigned) assigned in
      executed x assigned now (track assigned pending s)
        (execute_place x.exchange assigned (s.executor, w))

  -- Steps 5 and 6
  unfoldable pub send :
      Outside D W → PlaceLimitIntent D → (now : ℕ) → Action (RunState D W) (Unit {0})
  send x intent now (s, w) =
      let found = get s.tracked_orders intent.client_order_id in
      if is_tracked_live found
      then (ok tt, (s, w))
      else send_with x intent now s
          (assign_wire_link_id x intent intent.order_link_id (reusable_link found) w)

  abbrev pub send_admitted :
      Outside D W
      → Option (PlaceLimitIntent D × ℕ) × RunState D W
      → Result (Unit {0}) × RunState D W
  send_admitted x (none, st) = (ok tt, st)
  send_admitted x (some (intent, now), st) = send x intent now st

  unfoldable pub execute_place_intent :
      Outside D W → PlaceLimitIntent D → Limits D → Action (RunState D W) (Unit {0})
  execute_place_intent x intent limits st = send_admitted x (admit x intent limits st)
