-- ===== src/Runner/Retries.antt =====
-- What is handed to the retry queue: the calls of `on_intent_failed` in
-- apps/gridbot/src/gridbot/runner.py.
use grid_bot_validation.Prelude.{
  ℕ, ◌≡◌, refl, ap, sym, subst, ◌&&◌, ◌||◌, not, Bool, true, false, Option, none, some, List, [],
  ◌∷◌, ◌++◌, if◌then◌else◌,
}
use grid_bot_validation.Text.{Text}
use grid_bot_validation.Dict.{get}
use grid_bot_validation.Outcome.{Result, ok, err}
use grid_bot_validation.Decimal.{Decimals}
use grid_bot_validation.Executor.{
  PlaceLimitIntent, CancelIntent, OrderResult, ExecState, execute_place, execute_cancel,
}
use grid_bot_validation.Executor.Errors.{is_truncate_error, is_insufficient_balance}
use grid_bot_validation.TruncateBreaker.{record_110017}
use grid_bot_validation.Runner.{
  TrackedStatus, TrackedOrder, GeneratedIntent, StrategyRunner, RunState, Outside,
}
use grid_bot_validation.Runner.Orders.{mark, mark_cancelled, find_tracked_order}
use grid_bot_validation.Runner.Admit.{admit}
use grid_bot_validation.Runner.Place.{
  track, tracked_as, on_error, is_safety_cap, after_110017, after_refusal, after_answer, executed,
  send_with, send, send_admitted, execute_place_intent, record_placement_failure,
  assign_wire_link_id, reusable_link, is_tracked_live,
}
use grid_bot_validation.Runner.Batch.{
  execute_cancel_intent, execute_generated_intents, limits_of, drained,
}
use grid_bot_validation.Runner.Keeps.{
  Kept, Passes-Kept, admit-Passes, note_trip-Kept, after_success-Kept,
  record_placement_failure-Kept,
}
use grid_bot_validation.Runner.Invariant.{holds_either, batch_keeps}

module _ {D W : Type 0} (x : Outside D W) where
  -- The executor, at some state, was called with this very intent, link id included, and answered with
  -- this error.
  pub record WasRefused (i : PlaceLimitIntent D) (error : Option Text) : Type 0 where
    pub state : ExecState W
    pub result : OrderResult
    pub answered : (execute_place x.exchange i state).0 ≡ ok result
    pub failed : result.success ≡ false
    pub told : result.error ≡ error

  -- A placement that may be retried: it has a link id, the executor has refused it as it is, and the
  -- error is none of those that are dropped.
  pub record IsRetriable (i : PlaceLimitIntent D) (error : Option Text) : Type 0 where
    pub link : Text
    pub linked : i.order_link_id ≡ some link
    pub refused : WasRefused i error
    pub not_capped : on_error is_safety_cap error ≡ false
    pub not_truncated : on_error is_truncate_error error ≡ false
    pub affordable : i.reduce_only ≡ false → on_error is_insufficient_balance error ≡ false

  abbrev pub Retriable : GeneratedIntent D × Option Text → Type 0
  Retriable (GeneratedIntent.place i, error) = IsRetriable i error
  Retriable (GeneratedIntent.cancel is_duplicate c, error) = Unit {0}

  unfoldable pub AllRetriable : List (GeneratedIntent D × Option Text) → Type 0
  AllRetriable [] = Unit {0}
  AllRetriable (f ∷ fs) = Retriable f × AllRetriable fs

  AllRetriable-append :
      (fs : List (GeneratedIntent D × Option Text)) (f : GeneratedIntent D × Option Text)
      → AllRetriable fs
      → Retriable f
      → AllRetriable (fs ++ f ∷ [])
  unfolding AllRetriable
  AllRetriable-append [] f a r = (r, tt)
  AllRetriable-append (g ∷ fs) f a r = (a.0, AllRetriable-append fs f a.1 r)

  abbrev Reported : StrategyRunner D → Type 0
  Reported s = AllRetriable s.failed_intents

  Kept-Reported : {s s' : StrategyRunner D} → Kept s s' → Reported s → Reported s'
  Kept-Reported k a = subst AllRetriable (sym k.failed) a

-- The tests of a refusal that is reported.
unless_dropped :
    (capped reduce_only short : Bool)
    → (capped || (not reduce_only && short)) ≡ false
    → (capped ≡ false) × (reduce_only ≡ false → short ≡ false)
unless_dropped true r s h = absurd (cc h)
unless_dropped false true s h = (refl, λ k. absurd (cc k))
unless_dropped false false s h = (refl, λ k. h)

holds_one :
    {D W : Type 0} (P : StrategyRunner D → Type 0) (b : Bool) (u v : RunState D W)
    → P u.0
    → (b ≡ false → P v.0)
    → P (if b then u else v).0
holds_one P true u v p q = p
holds_one P false u v p q = q refl

module _ {D W : Type 0} ⦃dec : Decimals D⦄ (x : Outside D W) where
  after_110017-Reported :
      (i : PlaceLimitIntent D) (now : ℕ) (st : RunState D W)
      → Reported x st.0
      → Reported x (after_110017 i now st).0
  unfolding after_110017
  after_110017-Reported i now (s, w) a =
      Kept-Reported x
        (note_trip-Kept (record_110017 (i.side, i.price) now s.truncate_breaker).0 i _) a

  after_refusal-Reported :
      (i : PlaceLimitIntent D) (link : Text) (now : ℕ) (error : Option Text) (st : RunState D W)
      → i.order_link_id ≡ some link
      → WasRefused x i error
      → Reported x st.0
      → Reported x (after_refusal x i now error st).0
  unfolding after_refusal
  after_refusal-Reported i link now error (s, w) linked refused a =
      let failed = track i (tracked_as TrackedStatus.failed none (some i) i) s in
      let recorded = record_placement_failure x error (failed, w) in
      let a' = Kept-Reported x (record_placement_failure-Kept x error (failed, w)) a in
      let drops =
        on_error is_safety_cap error
        || (not i.reduce_only && on_error is_insufficient_balance error) in
      holds_one (Reported x) drops (failed, w) _ a
        (λ goes_on.
          holds_one (Reported x) (on_error is_truncate_error error) (after_110017 i now recorded) _
            (after_110017-Reported i now recorded a')
            (λ plain.
              let tests =
                unless_dropped (on_error is_safety_cap error) i.reduce_only
                  (on_error is_insufficient_balance error) goes_on in
              AllRetriable-append x recorded.0.failed_intents (GeneratedIntent.place i, error) a'
                (record {
                  link = link;
                  linked = linked;
                  refused = refused;
                  not_capped = tests.0;
                  not_truncated = plain;
                  affordable = tests.1;
                })))

  after_answer-Reported :
      (i : PlaceLimitIntent D) (link : Text) (now : ℕ) (result : OrderResult) (st : RunState D W)
      (called : ExecState W)
      → (execute_place x.exchange i called).0 ≡ ok result
      → i.order_link_id ≡ some link
      → Reported x st.0
      → Reported x (after_answer x i now result st).0
  after_answer-Reported i link now result (s, w) called answered linked a =
      let t = tracked_as TrackedStatus.placed result.order_id (some i) i in
      holds_one (Reported x) result.success _ _
        (Kept-Reported x (after_success-Kept i (track i t s)) a)
        (λ refused.
          after_refusal-Reported i link now result.error (s, w) linked
            (record {
              state = called;
              result = result;
              answered = answered;
              failed = refused;
              told = refl;
            })
            a)

  executed-Reported :
      (i : PlaceLimitIntent D) (link : Text) (now : ℕ) (s : StrategyRunner D)
      (r : Result OrderResult × ExecState W) (called : ExecState W)
      → execute_place x.exchange i called ≡ r
      → i.order_link_id ≡ some link
      → Reported x s
      → Reported x (executed x i now s r).1.0
  executed-Reported i link now s (err e, (e', w)) called answered linked a = a
  executed-Reported i link now s (ok result, (e', w)) called answered linked a =
      after_answer-Reported i link now result (record s { executor = e' }, w) called
        (ap (λ r. r.0) answered) linked a

  send_with-Reported :
      (i : PlaceLimitIntent D) (now : ℕ) (s : StrategyRunner D) (link : Result Text × W)
      → Reported x s
      → Reported x (send_with x i now s link).1.0
  send_with-Reported i now s (err e, w) a = a
  send_with-Reported i now s (ok link, w) a =
      let assigned = record i { order_link_id = some link } in
      let pending = tracked_as TrackedStatus.pending none (some assigned) assigned in
      executed-Reported assigned link now (track assigned pending s)
        (execute_place x.exchange assigned (s.executor, w)) (s.executor, w) refl refl a

  send_admitted-Reported :
      (s : StrategyRunner D) (r : Option (PlaceLimitIntent D × ℕ)) (st : RunState D W)
      → Kept s st.0
      → Reported x s
      → Reported x (send_admitted x (r, st)).1.0
  unfolding send
  send_admitted-Reported s none st k a = Kept-Reported x k a
  send_admitted-Reported s (some (i, now)) (s', w) k a =
      let a' = Kept-Reported x k a in
      let found = get s'.tracked_orders i.client_order_id in
      holds_either (Reported x) (is_tracked_live found) (ok tt, (s', w)) _ a'
        (send_with-Reported i now s'
          (assign_wire_link_id x i i.order_link_id (reusable_link found) w) a')

  execute_place_intent-Reported :
      (i : PlaceLimitIntent D) (st : RunState D W)
      → Reported x st.0
      → Reported x (execute_place_intent x i (limits_of st) st).1.0
  unfolding execute_place_intent
  execute_place_intent-Reported i st a =
      let r = admit x i (limits_of st) st in
      send_admitted-Reported st.0 r.0 r.1
        (Passes-Kept (limits_of st) st.0 r.1.0 r.0 (admit-Passes x i (limits_of st) st)) a

  drained-Reported :
      (is_duplicate : Bool) (found : Option (Text × TrackedOrder D)) (s : StrategyRunner D)
      → Reported x s
      → Reported x (drained is_duplicate found s)
  drained-Reported true none s a = a
  drained-Reported true (some (key, t)) s a = a
  drained-Reported false found s a = a

  execute_cancel_intent-Reported :
      (is_duplicate : Bool) (c : CancelIntent) (st : RunState D W)
      → Reported x st.0
      → Reported x (execute_cancel_intent x is_duplicate c st).0
  unfolding execute_cancel_intent
  execute_cancel_intent-Reported is_duplicate c (s, w) a =
      let answered = execute_cancel x.exchange c (s.executor, w) in
      let found = find_tracked_order none (some c.order_id) s.tracked_orders in
      holds_one (Reported x) answered.0.success _ _
        (drained-Reported is_duplicate found
          (record s {
            executor = answered.1.0;
            tracked_orders = mark mark_cancelled found s.tracked_orders;
          })
          a)
        (λ refused.
          AllRetriable-append x s.failed_intents
            (GeneratedIntent.cancel is_duplicate c, answered.0.error) a tt)

  -- What a batch hands to the retry queue. If every placement that was handed to it before is retriable,
  -- so is every one that the batch hands to it: it has a link id, the executor was called with this very
  -- intent, link id included, and answered with this error; and the error is no safety cap's, not 110017,
  -- and not 110007 if it opens a position. This holds whatever the exchange answers, and also where the
  -- batch ends in an exception.
  pub execute_generated_intents-AllRetriable :
      (intents : List (GeneratedIntent D)) (st : RunState D W)
      → AllRetriable x st.0.failed_intents
      → AllRetriable x (execute_generated_intents x intents (limits_of st) st).1.0.failed_intents
  execute_generated_intents-AllRetriable =
      batch_keeps (Reported x) x execute_cancel_intent-Reported execute_place_intent-Reported
