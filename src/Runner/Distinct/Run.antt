-- ===== src/Runner/Distinct/Run.antt =====
-- A batch of intents puts no order on the book twice: `_execute_generated_intents` of
-- apps/gridbot/src/gridbot/runner.py.
use grid_bot_validation.Prelude.{
  ℕ, ◌≡◌, refl, sym, subst, inl, inr, ◌&&◌, ◌||◌, Bool, true, false, not, Option, none, some, List,
  Bool-cases,
}
use grid_bot_validation.Text.{Text}
use grid_bot_validation.Dict.{Dict, get, values}
use grid_bot_validation.Outcome.{Result, ok, err}
use grid_bot_validation.Decimal.{Decimals}
use grid_bot_validation.Decimal.Order.{IsOrdered}
use grid_bot_validation.Executor.{
  PlaceLimitIntent, CancelIntent, OrderResult, ExecState, execute_place, execute_cancel,
}
use grid_bot_validation.Executor.Errors.{is_truncate_error, is_insufficient_balance}
use grid_bot_validation.TruncateBreaker.{record_110017}
use grid_bot_validation.Runner.{
  at_direction, TrackedStatus, TrackedOrder, GeneratedIntent, StrategyRunner, RunState, Outside,
}
use grid_bot_validation.Runner.Orders.{
  mark, mark_cancelled, find_tracked_order, resting, get_limit_orders,
}
use grid_bot_validation.Runner.Admit.{admit}
use grid_bot_validation.Runner.Place.{
  track, tracked_as, on_error, is_safety_cap, after_110017, after_refusal, after_answer, executed,
  send_with, send, send_admitted, execute_place_intent, record_placement_failure,
  assign_wire_link_id, reusable_link, is_tracked_live,
}
use grid_bot_validation.Runner.Batch.{
  execute_cancel_intent, execute_generated_intents, limits_of, drained,
}
use grid_bot_validation.Runner.Invariant.{holds_either, batch_keeps}
use grid_bot_validation.Runner.Keeps.{
  Kept, Passes, admit-Passes, note_trip-Kept, after_success-Kept, record_placement_failure-Kept,
}
use grid_bot_validation.Runner.Distinct.{
  AllApart, IsDistinct, AllApart-none, AllApart-put, IsDistinct-put, IsGood-AllApart,
}

module _ {D : Type 0} ⦃dec : Decimals D⦄ (o : IsOrdered dec) where
  abbrev Distinct : StrategyRunner D → Type 0
  Distinct s = IsDistinct s.tracked_orders

  Kept-Distinct : {s s' : StrategyRunner D} → Kept s s' → Distinct s → Distinct s'
  Kept-Distinct k d = subst IsDistinct (sym k.tracked) d

module _ {D W : Type 0} ⦃dec : Decimals D⦄ (o : IsOrdered dec) (x : Outside D W) where
  -- A tracked order that does not rest
  untracked :
      (i : PlaceLimitIntent D) (t : TrackedOrder D) (s : StrategyRunner D)
      → resting t ≡ none
      → Distinct o s
      → Distinct o (track i t s)
  untracked i t s h d =
      IsDistinct-put o s.tracked_orders i.client_order_id t d
        (subst (λ r. AllApart r s.tracked_orders) (sym h) (AllApart-none s.tracked_orders))

  after_110017-Distinct :
      (i : PlaceLimitIntent D) (now : ℕ) (st : RunState D W)
      → Distinct o st.0
      → Distinct o (after_110017 i now st).0
  unfolding after_110017
  after_110017-Distinct i now (s, w) d =
      Kept-Distinct o
        (note_trip-Kept (record_110017 (i.side, i.price) now s.truncate_breaker).0 i (
          track i
            (tracked_as TrackedStatus.failed none (some (record i { order_link_id = none })) i)
            (record s {
              position_dirty = at_direction i.direction true s.position_dirty;
              truncate_breaker = (record_110017 (i.side, i.price) now s.truncate_breaker).1;
            })))
        (untracked i _ s refl d)

  after_refusal-Distinct :
      (i : PlaceLimitIntent D) (now : ℕ) (error : Option Text) (st : RunState D W)
      → Distinct o st.0
      → Distinct o (after_refusal x i now error st).0
  unfolding after_refusal after_110017
  after_refusal-Distinct i now error (s, w) d =
      let failed = track i (tracked_as TrackedStatus.failed none (some i) i) s in
      let d' : Distinct o failed = untracked i _ s refl d in
      let recorded = record_placement_failure x error (failed, w) in
      let d'' = Kept-Distinct o (record_placement_failure-Kept x error (failed, w)) d' in
      elim (Bool-cases (
        on_error is_safety_cap error
        || (not i.reduce_only && on_error is_insufficient_balance error))) [
          | inl drops ↦ rw drops d'
          | inr goes_on ↦ elim (Bool-cases (on_error is_truncate_error error)) [
            | inl truncated ↦ rw (goes_on, truncated) (after_110017-Distinct i now recorded d'')
            | inr reported ↦ rw (goes_on, reported) d''
          ]
        ]

  after_answer-Distinct :
      (i : PlaceLimitIntent D) (now : ℕ) (result : OrderResult) (st : RunState D W)
      → Distinct o st.0
      → AllApart (some i) st.0.tracked_orders
      → Distinct o (after_answer x i now result st).0
  after_answer-Distinct i now result (s, w) d a = elim (Bool-cases result.success) [
    | inl placed ↦
        let t = tracked_as TrackedStatus.placed result.order_id (some i) i in
        rw placed (
          Kept-Distinct o (after_success-Kept i (track i t s))
            (IsDistinct-put o s.tracked_orders i.client_order_id t d a))
    | inr refused ↦ rw refused (after_refusal-Distinct i now result.error (s, w) d)
  ]

  executed-Distinct :
      (i : PlaceLimitIntent D) (now : ℕ) (s : StrategyRunner D)
      (r : Result OrderResult × ExecState W)
      → Distinct o s
      → AllApart (some i) s.tracked_orders
      → Distinct o (executed x i now s r).1.0
  executed-Distinct i now s (err e, (e', w)) d a = d
  executed-Distinct i now s (ok result, (e', w)) d a =
      after_answer-Distinct i now result (record s { executor = e' }, w) d a

  send_with-Distinct :
      (i : PlaceLimitIntent D) (now : ℕ) (s : StrategyRunner D) (link : Result Text × W)
      → Distinct o s
      → AllApart (some i) s.tracked_orders
      → Distinct o (send_with x i now s link).1.0
  unfolding AllApart
  send_with-Distinct i now s (err e, w) d a = d
  send_with-Distinct i now s (ok link, w) d a =
      let assigned = record i { order_link_id = some link } in
      let pending = tracked_as TrackedStatus.pending none (some assigned) assigned in
      executed-Distinct assigned now (track assigned pending s)
        (execute_place x.exchange assigned (s.executor, w)) (untracked assigned pending s refl d)
        (AllApart-put (some i) s.tracked_orders i.client_order_id pending a tt)

  send-Distinct :
      (i : PlaceLimitIntent D) (now : ℕ) (st : RunState D W)
      → Distinct o st.0
      → AllApart (some i) st.0.tracked_orders
      → Distinct o (send x i now st).1.0
  unfolding send
  send-Distinct i now (s, w) d a =
      let found = get s.tracked_orders i.client_order_id in
      holds_either (Distinct o) (is_tracked_live found) (ok tt, (s, w)) _ d
        (send_with-Distinct i now s
          (assign_wire_link_id x i i.order_link_id (reusable_link found) w) d a)

  send_admitted-Distinct :
      (s : StrategyRunner D) (r : Option (PlaceLimitIntent D × ℕ)) (st : RunState D W)
      → Passes (get_limit_orders (values s.tracked_orders)) s st.0 r
      → Distinct o s
      → Distinct o (send_admitted x (r, st)).1.0
  send_admitted-Distinct s none st p d = Kept-Distinct o p d
  send_admitted-Distinct s (some (i, now)) st (kept, good) d =
      send-Distinct i now st (Kept-Distinct o kept d) (
        subst (AllApart (some i)) (sym kept.tracked) (IsGood-AllApart i s.tracked_orders st.0 good))

  execute_place_intent-Distinct :
      (i : PlaceLimitIntent D) (st : RunState D W)
      → Distinct o st.0
      → Distinct o (execute_place_intent x i (limits_of st) st).1.0
  unfolding execute_place_intent
  execute_place_intent-Distinct i st d =
      let r = admit x i (limits_of st) st in
      send_admitted-Distinct st.0 r.0 r.1 (admit-Passes x i (limits_of st) st) d

  mark-Distinct :
      (found : Option (Text × TrackedOrder D)) (orders : Dict (TrackedOrder D))
      → IsDistinct orders
      → IsDistinct (mark mark_cancelled found orders)
  mark-Distinct none orders d = d
  mark-Distinct (some (key, t)) orders d =
      IsDistinct-put o orders key (mark_cancelled t) d (AllApart-none orders)

  drained-Distinct :
      (is_duplicate : Bool) (found : Option (Text × TrackedOrder D)) (s : StrategyRunner D)
      → Distinct o s
      → Distinct o (drained is_duplicate found s)
  drained-Distinct true none s d = d
  drained-Distinct true (some (key, t)) s d = d
  drained-Distinct false found s d = d

  execute_cancel_intent-Distinct :
      (is_duplicate : Bool) (c : CancelIntent) (st : RunState D W)
      → Distinct o st.0
      → Distinct o (execute_cancel_intent x is_duplicate c st).0
  unfolding execute_cancel_intent
  execute_cancel_intent-Distinct is_duplicate c (s, w) d =
      let answered = execute_cancel x.exchange c (s.executor, w) in
      let found = find_tracked_order none (some c.order_id) s.tracked_orders in
      elim (Bool-cases answered.0.success) [
        | inl done ↦ rw done (
            drained-Distinct is_duplicate found
              (record s {
                executor = answered.1.0;
                tracked_orders = mark mark_cancelled found s.tracked_orders;
              })
              (mark-Distinct found s.tracked_orders d))
        | inr refused ↦ rw refused d
      ]

  -- A batch of intents, with a latched SAME ORDER error or not, puts no order on the book twice: if no
  -- two tracked orders that rest have the same price, quantity, side and reduce-only flag, this still
  -- holds after the batch, whatever the exchange answers, and also where the batch ends in an exception.
  pub execute_generated_intents-IsDistinct :
      (intents : List (GeneratedIntent D)) (st : RunState D W)
      → IsDistinct st.0.tracked_orders
      → IsDistinct (execute_generated_intents x intents (limits_of st) st).1.0.tracked_orders
  execute_generated_intents-IsDistinct =
      batch_keeps (Distinct o) x execute_cancel_intent-Distinct execute_place_intent-Distinct
