-- ===== src/AuthCooldown/Tests.antt =====
-- Concrete runs of the auth cooldowns, and the theorems at inputs that meet their hypotheses.
use grid_bot_validation.Prelude.{
  ℕ, ◌≡◌, ◌≤◌, refl, sym, subst, Bool, if◌then◌else◌, true, false, none, some, [], ◌∷◌, ap, ◌∙◌,
  arith,
}
use grid_bot_validation.Text.{Text, digits, same_text}
use grid_bot_validation.Outcome.{Error, ok, err}
use grid_bot_validation.Dict.{get, put, pop}
use grid_bot_validation.Dict.Laws.{IsDict}
use grid_bot_validation.Executor.Errors.{
  classify_error, find_code, code_here, closed_number, read_digits, skip_spaces, after_prefix,
  is_auth_error,
}
use grid_bot_validation.Executor.{
  IntentExecutor, make_order_link_id, execute_batch, execute_intent, execute_place, link_id,
  place_with, checked_place, submit_place, after_place, handle_error, count_failure,
  get_position_idx, execute_cancel, after_cancel, reset_auth_cooldown,
}
use grid_bot_validation.Executor.Samples.{refusing, executor, batch}
use grid_bot_validation.AuthCooldown.{
  Alert, AuthCooldownManager, run_batch, start_cooldown, cooldown_cycles, sweep_expired, sweep_keys,
  sweep_one, expire, resume, enter,
}
use grid_bot_validation.AuthCooldown.Sweep.{SweptAt, sweep_expired-SweptAt}
use grid_bot_validation.AuthCooldown.Tracked.{
  Step, Steps, InStep, AllInStep, Steps-AllInStep, cooldown-ends,
}

-- Two strategies, "a" and "b", with a retry queue each.
abbrev a_id : Text
a_id = 97 ∷ []

abbrev b_id : Text
b_id = 98 ∷ []

abbrev calm : AuthCooldownManager ℕ
calm = record {
  strategy_executors = (a_id, executor) ∷ (b_id, executor) ∷ [];
  retry_queues = (a_id, []) ∷ (b_id, []) ∷ [];
  alerts = [];
  cooldown_minutes = 30;
  auth_cooldown_until = [];
  auth_cooldown_cycles = [];
}

abbrev cooling : AuthCooldownManager ℕ
cooling = run_batch refusing a_id executor batch 0 1_000 calm

abbrev paused : IntentExecutor
paused = record executor {
  auth_failure_count = 3;
  auth_cooldown = true;
  on_cooldown_entered = some 1;
}

abbrev cooled : AuthCooldownManager ℕ
cooled = record calm {
  strategy_executors = (a_id, paused) ∷ (b_id, executor) ∷ [];
  alerts = Alert.auth_cooldown a_id 1 ∷ [];
  auth_cooldown_until = (a_id, 1_800_001_000) ∷ [];
  auth_cooldown_cycles = (a_id, 1) ∷ [];
}

-- The batch of "a" ends in a cooldown of half an hour; "b" goes on.
cooling_run : cooling ≡ cooled
unfolding run_batch execute_batch execute_intent execute_place link_id place_with checked_place
    submit_place after_place handle_error count_failure get_position_idx execute_cancel after_cancel
    make_order_link_id digits classify_error find_code code_here closed_number read_digits
    skip_spaces after_prefix is_auth_error start_cooldown cooldown_cycles get put same_text
cooling_run = refl

-- A moment too early a sweep does nothing; then it ends the cooldown.
early_run : sweep_expired 1_800_000_999 cooled ≡ (ok tt, cooled)
unfolding sweep_expired sweep_keys sweep_one get same_text
early_run = refl

sweep_run : sweep_expired 1_800_001_000 cooled ≡ (
  ok tt,
  record cooled {
    strategy_executors = (a_id, reset_auth_cooldown paused) ∷ (b_id, executor) ∷ [];
    alerts = Alert.auth_cooldown a_id 1 ∷ Alert.auth_cooldown_resume a_id 1 ∷ [];
    auth_cooldown_until = [];
  },
)
unfolding sweep_expired sweep_keys sweep_one expire resume get put pop same_text
sweep_run = refl

thread_run : enter false a_id 5 cooled ≡ (err Error.not_main_thread, cooled)
unfolding enter
thread_run = refl

cooled-IsDict : IsDict cooled.auth_cooldown_until
unfolding IsDict get
cooled-IsDict = (refl, tt)

sweep_expired-SweptAt_example :
    ((sweep_expired 1_800_001_000 cooled).0 ≡ ok tt)
    × SweptAt (λ id. true) 1_800_001_000 cooled (sweep_expired 1_800_001_000 cooled).1
sweep_expired-SweptAt_example = sweep_expired-SweptAt 1_800_001_000 cooled cooled-IsDict

one_of :
    (a b : Bool) (e e' : IntentExecutor)
    → (if a then some e else if b then some e else none) ≡ some e'
    → e' ≡ e
one_of true b e e' h = cc h
one_of false true e e' h = cc h
one_of false false e e' h = absurd (cc h)

calm-each :
    (id : Text) (e : IntentExecutor) → get calm.strategy_executors id ≡ some e → e ≡ executor
unfolding get
calm-each id e h = one_of (same_text a_id id) (same_text b_id id) executor e h

calm-AllInStep : AllInStep calm
unfolding IsDict get
calm-AllInStep = record {
  dict = tt;
  each = λ id e h.
      subst (λ y. InStep y none) (sym (calm-each id e h))
        (record {
          expires = refl;
          counted = λ off. omega arith;
          able = omega arith;
          callback = refl;
        });
}

get-calm : get calm.strategy_executors a_id ≡ some executor
unfolding get same_text
get-calm = refl

get-cooled : get cooled.strategy_executors a_id ≡ some paused
unfolding get same_text
get-cooled = refl

first_batch : Steps refusing calm cooling
first_batch =
    Steps.next calm calm cooling (Steps.start calm)
      (Step.batch a_id executor batch 0 1_000 calm get-calm)

cooldown-ends_example :
    (expiry : ℕ) × (get cooling.auth_cooldown_until a_id ≡ some expiry)
    × ((now : ℕ)
        → expiry ≤ now
        → (get (sweep_expired now cooling).1.strategy_executors a_id
            ≡ some (reset_auth_cooldown paused))
          × (get (sweep_expired now cooling).1.auth_cooldown_until a_id ≡ none))
cooldown-ends_example =
    cooldown-ends refusing calm cooling a_id paused first_batch calm-AllInStep
      (ap (λ m. get m.strategy_executors a_id) cooling_run ∙ get-cooled) refl

Steps-AllInStep_example : AllInStep cooling
Steps-AllInStep_example = Steps-AllInStep refusing calm cooling first_batch calm-AllInStep
