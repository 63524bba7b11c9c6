-- ===== src/Runner/Closing/Sent.antt =====
-- What the reduce-only orders of a position add up to after a submission: steps 5 and 6 of
-- `_execute_place_intent` in apps/gridbot/src/gridbot/runner.py.
use grid_bot_validation.Prelude.{
  ℕ, ◌≡◌, refl, ap, ◌∙◌, ◌⊎◌, inl, inr, ◌&&◌, ◌||◌, not, true, false, Option, none, some,
  Bool-cases,
}
use grid_bot_validation.Prelude.Int.{ℤ, pos, ◌+ℤ◌, int_laws}
use grid_bot_validation.Text.{Text}
use grid_bot_validation.Dict.{get}
use grid_bot_validation.Dict.Laws.{get-put_self}
use grid_bot_validation.Outcome.{Result, ok, err}
use grid_bot_validation.Decimal.{Decimals}
use grid_bot_validation.Backtest.{OrderDirection}
use grid_bot_validation.Executor.{PlaceLimitIntent, OrderResult, ExecState, execute_place}
use grid_bot_validation.Executor.Errors.{is_truncate_error, is_insufficient_balance}
use grid_bot_validation.TruncateBreaker.{record_110017}
use grid_bot_validation.Runner.{
  GeneratedIntent, TrackedStatus, TrackedOrder, StrategyRunner, RunState, Outside, at_direction,
}
use grid_bot_validation.Runner.Orders.{resting, resting_if, is_live}
use grid_bot_validation.Runner.Place.{
  track, tracked_as, on_error, is_safety_cap, after_110017, after_refusal, after_answer, executed,
  send_with, send, record_placement_failure, report, assign_wire_link_id, reusable_link,
  is_tracked_live,
}
use grid_bot_validation.Runner.Keeps.{
  holds_one, Kept, note_trip-Kept, after_success-Kept, record_placement_failure-Kept,
}
use grid_bot_validation.Runner.Closing.{closing, closing_total, found_closing, closing_total-put}

pub plus_zero : (z : ℤ) → z +ℤ pos 0 ≡ z
plus_zero z = omega int_laws

module _ {D : Type 0} (value : D → ℤ) (d : OrderDirection) where
  idle_closing :
      (status : TrackedStatus) (i : Option (PlaceLimitIntent D))
      → is_live status ≡ false
      → closing value d (resting_if status i) ≡ pos 0
  idle_closing TrackedStatus.pending i h = refl
  idle_closing TrackedStatus.placed i h = absurd (cc h)
  idle_closing TrackedStatus.filled i h = refl
  idle_closing TrackedStatus.cancelled i h = refl
  idle_closing TrackedStatus.failed i h = refl

  pub found_idle :
      (found : Option (TrackedOrder D))
      → is_tracked_live found ≡ false
      → found_closing value d found ≡ pos 0
  found_idle none h = refl
  found_idle (some t) h = idle_closing t.status t.intent h

  -- The total is `z`, and the order under the key of an intent does not count to it.
  pub record Idle (i : PlaceLimitIntent D) (z : ℤ) (s : StrategyRunner D) : Type 0 where
    pub total : closing_total value d s.tracked_orders ≡ z
    pub idle : found_closing value d (get s.tracked_orders i.client_order_id) ≡ pos 0

  pub track-Idle :
      (i : PlaceLimitIntent D) (z : ℤ) (t : TrackedOrder D) (s : StrategyRunner D)
      → Idle i z s
      → closing value d (resting t) ≡ pos 0
      → Idle i z (track i t s)
  track-Idle i z t s h none_more = record {
    total =
        closing_total-put value d s.tracked_orders i.client_order_id t h.idle
        ∙ ap (λ y. closing_total value d s.tracked_orders +ℤ y) none_more
        ∙ plus_zero (closing_total value d s.tracked_orders)
        ∙ h.total;
    idle =
        ap (found_closing value d) (get-put_self s.tracked_orders i.client_order_id t) ∙ none_more;
  }

  pub Kept-Idle :
      (i : PlaceLimitIntent D) (z : ℤ) {s s' : StrategyRunner D}
      → Kept s s'
      → Idle i z s
      → Idle i z s'
  Kept-Idle i z k h = record {
    total = ap (closing_total value d) k.tracked ∙ h.total;
    idle = ap (λ o. found_closing value d (get o i.client_order_id)) k.tracked ∙ h.idle;
  }

module _ {D W : Type 0} ⦃dec : Decimals D⦄ (value : D → ℤ) (d : OrderDirection)
    (x : Outside D W) where
  after_110017-Idle :
      (i : PlaceLimitIntent D) (z : ℤ) (now : ℕ) (st : RunState D W)
      → Idle value d i z st.0
      → Idle value d i z (after_110017 i now st).0
  unfolding after_110017
  after_110017-Idle i z now (s, w) h =
      Kept-Idle value d i z
        (note_trip-Kept (record_110017 (i.side, i.price) now s.truncate_breaker).0 i _)
        (track-Idle value d i z
          (tracked_as TrackedStatus.failed none (some (record i { order_link_id = none })) i)
          (record s {
            position_dirty = at_direction i.direction true s.position_dirty;
            truncate_breaker = (record_110017 (i.side, i.price) now s.truncate_breaker).1;
          })
          (record { total = h.total; idle = h.idle }) refl)

  after_refusal-Idle :
      (i : PlaceLimitIntent D) (z : ℤ) (now : ℕ) (error : Option Text) (st : RunState D W)
      → Idle value d i z st.0
      → Idle value d i z (after_refusal x i now error st).0
  unfolding after_refusal
  after_refusal-Idle i z now error (s, w) h =
      let t = tracked_as TrackedStatus.failed none (some i) i in
      let failed = track i t s in
      let h' = track-Idle value d i z t s h refl in
      let recorded = record_placement_failure x error (failed, w) in
      let h'' = Kept-Idle value d i z (record_placement_failure-Kept x error (failed, w)) h' in
      holds_one (Idle value d i z)
        (on_error is_safety_cap error
          || (not i.reduce_only && on_error is_insufficient_balance error))
        (failed, w) _ h'
        (holds_one (Idle value d i z) (on_error is_truncate_error error)
          (after_110017 i now recorded) (report (GeneratedIntent.place i) error recorded)
          (after_110017-Idle i z now recorded h'') (record { total = h''.total; idle = h''.idle }))

  -- After the answer the order counts, or the total is what it was.
  abbrev pub Counted : PlaceLimitIntent D → ℤ → StrategyRunner D → Type 0
  Counted i z s =
      (closing_total value d s.tracked_orders ≡ z)
      ⊎ (closing_total value d s.tracked_orders ≡ z +ℤ closing value d (some i))

  after_answer-Counted :
      (i : PlaceLimitIntent D) (z : ℤ) (now : ℕ) (result : OrderResult) (st : RunState D W)
      → Idle value d i z st.0
      → Counted i z (after_answer x i now result st).0
  after_answer-Counted i z now result (s, w) h =
      let t = tracked_as TrackedStatus.placed result.order_id (some i) i in
      holds_one (Counted i z) result.success _ _
        (inr (
          ap (closing_total value d) (after_success-Kept i (track i t s)).tracked
          ∙ closing_total-put value d s.tracked_orders i.client_order_id t h.idle
          ∙ ap (λ y. y +ℤ closing value d (some i)) h.total))
        (inl (after_refusal-Idle i z now result.error (s, w) h).total)

  executed-Counted :
      (i : PlaceLimitIntent D) (z : ℤ) (now : ℕ) (s : StrategyRunner D)
      (r : Result OrderResult × ExecState W)
      → Idle value d i z s
      → Counted i z (executed x i now s r).1.0
  executed-Counted i z now s (err e, (e', w)) h = inl h.total
  executed-Counted i z now s (ok result, (e', w)) h =
      after_answer-Counted i z now result (record s { executor = e' }, w)
        (record { total = h.total; idle = h.idle })

  send_with-Counted :
      (i : PlaceLimitIntent D) (z : ℤ) (now : ℕ) (s : StrategyRunner D) (link : Result Text × W)
      → Idle value d i z s
      → Counted i z (send_with x i now s link).1.0
  send_with-Counted i z now s (err e, w) h = inl h.total
  send_with-Counted i z now s (ok link, w) h =
      let assigned = record i { order_link_id = some link } in
      let pending = tracked_as TrackedStatus.pending none (some assigned) assigned in
      let tracked = track-Idle value d i z pending s h refl in
      executed-Counted assigned z now (track assigned pending s)
        (execute_place x.exchange assigned (s.executor, w))
        (record { total = tracked.total; idle = tracked.idle })

  pub send-Counted :
      (i : PlaceLimitIntent D) (now : ℕ) (st : RunState D W)
      → Counted i (closing_total value d st.0.tracked_orders) (send x i now st).1.0
  unfolding send
  send-Counted i now (s, w) =
      let found = get s.tracked_orders i.client_order_id in
      elim (Bool-cases (is_tracked_live found)) [
        | inl live ↦ rw live (inl refl)
        | inr idle ↦ rw idle (
            send_with-Counted i (closing_total value d s.tracked_orders) now s
              (assign_wire_link_id x i i.order_link_id (reusable_link found) w)
              (record { total = refl; idle = found_idle value d found idle }))
      ]
