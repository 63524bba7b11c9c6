-- ===== src/Executor/Cooldown.antt =====
-- The auth cooldown of the executor: apps/gridbot/src/gridbot/executor.py.
use grid_bot_validation.Prelude.{
  ℕ, ◌+◌, ◌≤◌, ◌<◌, leb, ◌≡◌, refl, sym, ap, subst, ◌∙◌, inl, inr, Bool, true, false, not, ◌&&◌,
  Option, none, some, List, [], ◌∷◌, if◌then◌else◌, arith, Bool-cases,
}
use grid_bot_validation.Text.{Text}
use grid_bot_validation.Outcome.{
  Action, Result, ok, err, ◌>>=◌, pure, bind_ok, bind_err, Result-cases,
}
use grid_bot_validation.SafetyCaps.{SafetyCaps, rate_limited}
use grid_bot_validation.Executor.Errors.{is_auth_error, classify_error, rest_code}
use grid_bot_validation.Executor.{
  Metric, record_metric, request, Exchange, Answer, PlaceLimitIntent, Intent, IntentExecutor,
  ExecState, ExecutionResult, called, count_failure, handle_error, link_id, with_link, after_place,
  submit_place, checked_place, place_with, execute_place, after_cancel, execute_cancel,
  execute_intent, execute_batch,
}

-- The callback is called once exactly if the cooldown begins.
abbrev pub calls_after : (was is_on : Bool) → Option ℕ → Option ℕ
calls_after was is_on calls = if is_on && not was then called calls else calls

-- From one state of the executor to a later one.
pub record Progress (s s' : IntentExecutor) : Type 0 where
  pub same_max : s'.max_auth_failures ≡ s.max_auth_failures
  pub stays : s.auth_cooldown ≡ true → s'.auth_cooldown ≡ true
  pub calls :
      s'.on_cooldown_entered ≡ calls_after s.auth_cooldown s'.auth_cooldown s.on_cooldown_entered
  pub tracked :
      (s.auth_cooldown ≡ false → s.auth_failure_count < s.max_auth_failures)
      → s'.auth_cooldown ≡ false
      → s'.auth_failure_count < s'.max_auth_failures

-- Nothing of the cooldown has changed but that the count may be zero.
record Quiet (s s' : IntentExecutor) : Type 0 where
  max : s'.max_auth_failures ≡ s.max_auth_failures
  on : s'.auth_cooldown ≡ s.auth_cooldown
  calls : s'.on_cooldown_entered ≡ s.on_cooldown_entered
  count : s'.auth_failure_count ≤ s.auth_failure_count

Progress-Quiet : (s s' : IntentExecutor) → Quiet s s' → Progress s s'
Progress-Quiet s s' q = record {
  same_max = q.max;
  stays = λ h. q.on ∙ h;
  calls = ground (arith, q.calls, q.on);
  tracked = λ h k. let less = h (sym q.on ∙ k) in omega (arith, less, q.max, q.count);
}

calls_trans :
    (a b c : Bool) (x y z : Option ℕ)
    → y ≡ calls_after a b x
    → z ≡ calls_after b c y
    → (a ≡ true → b ≡ true)
    → (b ≡ true → c ≡ true)
    → z ≡ calls_after a c x
calls_trans true true true x y z h k m n = k ∙ h
calls_trans true true false x y z h k m n = absurd (cc (n refl))
calls_trans true false c x y z h k m n = absurd (cc (m refl))
calls_trans false true true x y z h k m n = k ∙ h
calls_trans false true false x y z h k m n = absurd (cc (n refl))
calls_trans false false true x y z h k m n = k ∙ ap called h
calls_trans false false false x y z h k m n = k ∙ h

Progress-trans : (s s' s'' : IntentExecutor) → Progress s s' → Progress s' s'' → Progress s s''
Progress-trans s s' s'' p q = record {
  same_max = q.same_max ∙ p.same_max;
  stays = λ h. q.stays (p.stays h);
  calls =
      calls_trans s.auth_cooldown s'.auth_cooldown s''.auth_cooldown s.on_cooldown_entered
        s'.on_cooldown_entered s''.on_cooldown_entered p.calls q.calls p.stays q.stays;
  tracked = λ h k. q.tracked (p.tracked h) k;
}

count_failure-Progress : (s : IntentExecutor) → Progress s (count_failure s)
unfolding count_failure
count_failure-Progress s =
    elim (Bool-cases (leb s.max_auth_failures (s.auth_failure_count + 1) && not s.auth_cooldown)) [
      | inl enters ↦ rw enters (record {
        same_max = refl;
        stays = λ h. refl;
        calls = ground (arith, enters);
        tracked = λ h k. absurd (cc k);
      })
      | inr stays ↦ rw stays (record {
        same_max = refl;
        stays = λ h. h;
        calls = ground arith;
        tracked = λ h k. ground (arith, stays, k);
      })
    ]

handle_error-Progress : (error : Text) (s : IntentExecutor) → Progress s (handle_error error s)
unfolding handle_error
handle_error-Progress error s =
    let s' = record_metric (Metric.rest_error (rest_code (classify_error error))) s in
    elim (Bool-cases (is_auth_error error)) [
      | inl auth ↦ rw auth (
          Progress-trans s s' (count_failure s')
            (Progress-Quiet s s'
              (record { max = refl; on = refl; calls = refl; count = omega arith }))
            (count_failure-Progress s'))
      | inr other ↦ rw other (
          Progress-Quiet s (record s' { auth_failure_count = 0 })
            (record { max = refl; on = refl; calls = refl; count = omega arith }))
    ]

Progress-refl : (s : IntentExecutor) → Progress s s
Progress-refl s =
    Progress-Quiet s s (record { max = refl; on = refl; calls = refl; count = omega arith })

after_cancel-Progress :
    {W : Type 0} (answer : Answer Bool) (s : IntentExecutor) (w : W)
    → Progress s (after_cancel answer (s, w)).1.0
unfolding after_cancel
after_cancel-Progress (Answer.returned true) s w =
    Progress-Quiet s _ (record { max = refl; on = refl; calls = refl; count = omega arith })
after_cancel-Progress (Answer.returned false) s w =
    Progress-Quiet s _ (record { max = refl; on = refl; calls = refl; count = omega arith })
after_cancel-Progress (Answer.raised error) s w =
    Progress-trans s (handle_error error s) _ (handle_error-Progress error s) (
      Progress-Quiet (handle_error error s) _
        (record { max = refl; on = refl; calls = refl; count = omega arith }))

Progress-either :
    {R W : Type 0} (s : IntentExecutor) (b : Bool) (u v : R × ExecState W)
    → Progress s u.1.0
    → Progress s v.1.0
    → Progress s (if b then u else v).1.0
Progress-either s true u v p q = p
Progress-either s false u v p q = q

module _ {D W : Type 0} (x : Exchange D W) where
  after_place-Progress :
      (link : Text) (answer : Answer (Option Text)) (s : IntentExecutor) (w : W)
      → Progress s (after_place x link answer (s, w)).1.0
  unfolding after_place
  after_place-Progress link (Answer.returned order_id) s w =
      Progress-Quiet s _ (record { max = refl; on = refl; calls = refl; count = omega arith })
  after_place-Progress link (Answer.raised error) s w =
      Progress-trans s (handle_error error s) _ (handle_error-Progress error s) (
        Progress-Quiet (handle_error error s) _
          (record { max = refl; on = refl; calls = refl; count = omega arith }))

  submit_place-Progress :
      (intent : PlaceLimitIntent D) (link : Text) (s : IntentExecutor) (w : W)
      → Progress s (submit_place x intent link (s, w)).1.0
  unfolding submit_place
  submit_place-Progress intent link s w =
      let called = x.place_order (request s intent link) w in
      after_place-Progress link called.0 s called.1

  checked_place-Progress :
      (intent : PlaceLimitIntent D) (link : Text) (caps : Option SafetyCaps) (s : IntentExecutor)
      (w : W)
      → Progress s (checked_place x intent link caps (s, w)).1.0
  unfolding checked_place
  checked_place-Progress intent link none s w = submit_place-Progress intent link s w
  checked_place-Progress intent link (some caps) s w =
      let (now, w') = x.clock w in
      let checked = rate_limited caps now in
      let s' = record s { safety_caps = some checked.1 } in
      let quiet : Progress s s' =
        Progress-Quiet s s' (record { max = refl; on = refl; calls = refl; count = omega arith }) in
      elim (Bool-cases checked.0) [
        | inl limited ↦ rw limited (
            Progress-Quiet s _
              (record { max = refl; on = refl; calls = refl; count = omega arith }))
        | inr free ↦ rw free (Progress-trans s s' _ quiet (submit_place-Progress intent link s' w'))
      ]

  place_with-Progress :
      (intent : PlaceLimitIntent D) (link : Text) (s : IntentExecutor) (w : W)
      → Progress s (place_with x intent link (s, w)).1.0
  unfolding place_with
  place_with-Progress intent link s w =
      Progress-either s s.shadow_mode _ _
        (Progress-Quiet s _ (record { max = refl; on = refl; calls = refl; count = omega arith }))
        (checked_place-Progress intent link s.safety_caps s w)

  with_link-Progress :
      (intent : PlaceLimitIntent D) (link : Result Text × W) (s : IntentExecutor)
      → Progress s (with_link x intent link s).1.0
  with_link-Progress intent (err e, w) s = Progress-refl s
  with_link-Progress intent (ok link, w) s = place_with-Progress intent link s w

  execute_intent-Progress :
      (i : Intent D) (s : ExecState W) → Progress s.0 (execute_intent x i s).1.0
  unfolding execute_intent execute_place execute_cancel
  execute_intent-Progress (Intent.place p) (s, w) =
      with_link-Progress p (link_id x p p.order_link_id w) s
  execute_intent-Progress (Intent.cancel c) (s, w) =
      let called = x.cancel_order c w in
      Progress-either s s.shadow_mode _ _ (Progress-refl s)
        (after_cancel-Progress called.0 s called.1)

  -- Whatever the intents of a batch, the answers of the exchange and the exceptions: the executor does
  -- not leave its cooldown by itself, its callback is called once if the cooldown begins in the batch and
  -- not at all otherwise, and outside the cooldown the count of failures stays below its maximum.
  pub execute_batch-Progress :
      (is' : List (Intent D)) (s : ExecState W) → Progress s.0 (execute_batch x is' s).1.0
  unfolding execute_batch
  execute_batch-Progress [] s = Progress-refl s.0
  execute_batch-Progress (i ∷ is') s =
      let first = execute_intent-Progress i s in
      let s' = (execute_intent x i s).1 in
      let later : ExecutionResult → Action (ExecState W) (List ExecutionResult) =
        λ r. execute_batch x is' >>= λ rs. pure (r ∷ rs) in
      elim (Result-cases (execute_intent x i s).0) [
        | inl (e, failed) ↦
            subst (λ y. Progress s.0 y.1.0) (sym (bind_err (execute_intent x i) later s failed))
              first
        | inr (r, done) ↦
            let rest = execute_batch-Progress is' s' in
            let again : List ExecutionResult → Action (ExecState W) (List ExecutionResult) =
              λ rs. pure (r ∷ rs) in
            let whole : Progress s'.0 (later r s').1.0 =
              elim (Result-cases (execute_batch x is' s').0) [
                | inl (e, failed) ↦
                    subst (λ y. Progress s'.0 y.1.0)
                      (sym (bind_err (execute_batch x is') again s' failed)) rest
                | inr (rs, fine) ↦
                    subst (λ y. Progress s'.0 y.1.0)
                      (sym (bind_ok (execute_batch x is') again s' fine)) rest
              ] in
            subst (λ y. Progress s.0 y.1.0) (sym (bind_ok (execute_intent x i) later s done))
              (Progress-trans s.0 s'.0 (later r s').1.0 first whole)
      ]
