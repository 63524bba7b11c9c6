-- ===== src/Runner/Admit.antt =====
-- Steps 1 to 4 of `_execute_place_intent` in apps/gridbot/src/gridbot/runner.py: what decides whether an
-- intent is sent.
use grid_bot_validation.Prelude.{ℕ, Option, none, some, if◌then◌else◌}
use grid_bot_validation.Decimal.{Decimals, zero_dec, le}
use grid_bot_validation.TruncateBreaker.{is_blocked}
use grid_bot_validation.Executor.{PlaceLimitIntent}
use grid_bot_validation.Runner.{Limits, RunState, Outside}
use grid_bot_validation.Runner.Guard.{
  CapBlock, evaluate_safety_caps, emit_safety_cap_rejection, refresh_if_dirty, is_good_to_place,
}

module _ {D W : Type 0} ⦃dec : Decimals D⦄ where
  -- Steps 1 to 4 of `_execute_place_intent`, from the last one on: the sized intent with the time of
  -- the breaker's test, or `none` for an early return.
  abbrev pub pass_guard :
      Outside D W
      → PlaceLimitIntent D
      → (now : ℕ) → Limits D
      → RunState D W
      → Option (PlaceLimitIntent D × ℕ) × RunState D W
  pass_guard x intent now limits st =
      let (good, st') = is_good_to_place x intent limits st in
      (if good then some (intent, now) else none, st')

  abbrev pub pass_caps :
      Outside D W
      → PlaceLimitIntent D
      → (now : ℕ) → Limits D
      → Option CapBlock
      → RunState D W
      → Option (PlaceLimitIntent D × ℕ) × RunState D W
  pass_caps x intent now limits (some CapBlock.loss_breaker) st = (none, st)
  pass_caps x intent now limits (some (CapBlock.capped reason)) st =
      (none, emit_safety_cap_rejection x reason st)
  pass_caps x intent now limits none st =
      pass_guard x intent now limits (refresh_if_dirty x intent now st)

  abbrev pub pass_breaker :
      Outside D W
      → PlaceLimitIntent D
      → Limits D
      → RunState D W
      → Option (PlaceLimitIntent D × ℕ) × RunState D W
  pass_breaker x intent limits (s, w) =
      let (now, w') = x.exchange.clock w in
      let (blocked, b) = is_blocked (intent.side, intent.price) now s.truncate_breaker in
      let s' = record s { truncate_breaker = b } in
      if blocked
      then (none, (s', w'))
      else pass_caps x intent now limits (evaluate_safety_caps s' intent limits) (s', w')

  unfoldable pub admit :
      Outside D W
      → PlaceLimitIntent D
      → Limits D
      → RunState D W
      → Option (PlaceLimitIntent D × ℕ) × RunState D W
  admit x intent limits (s, w) =
      let sized = record intent { qty = x.resolve_qty s intent } in
      if le sized.qty zero_dec then (none, (s, w)) else pass_breaker x sized limits (s, w)
