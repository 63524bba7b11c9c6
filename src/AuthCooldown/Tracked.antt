-- ===== src/AuthCooldown/Tracked.antt =====
-- The executors and the expiries together: apps/gridbot/src/gridbot/auth_cooldown_manager.py as
-- apps/gridbot/src/gridbot/orchestrator.py runs it.
use grid_bot_validation.Prelude.{
  ℕ, ◌+◌, ◌≤◌, ◌<◌, leb, ◌≡◌, refl, sym, ap, subst, ◌∙◌, inl, inr, Bool, true, false, not, ◌&&◌,
  Option, none, some, List, if◌then◌else◌, arith, Bool-cases, Option-cases,
}
use grid_bot_validation.Text.{Text, same_text, same_text-cases}
use grid_bot_validation.Dict.{get, put}
use grid_bot_validation.Dict.Laws.{same_text_ne, IsDict, IsDict-put, get-put_self, get-put_ne}
use grid_bot_validation.Executor.{
  Exchange, Intent, IntentExecutor, reset_auth_cooldown, execute_batch,
}
use grid_bot_validation.Executor.Cooldown.{calls_after, execute_batch-Progress}
use grid_bot_validation.AuthCooldown.{
  AuthCooldownManager, minutes, start_cooldown, sweep_expired, deliver, calls_between, run_batch,
}
use grid_bot_validation.AuthCooldown.Sweep.{is_due, without, reset_if, sweep_expired-SweptAt}

-- A batch of a strategy that has an executor, or a sweep.
pub data Step {A D W : Type 0} (x : Exchange D W) : (m m' : AuthCooldownManager A) → Type 0 where
  batch :
      (strat_id : Text) (executor : IntentExecutor) (intents : List (Intent D)) (w : W) (now : ℕ)
      (m : AuthCooldownManager A)
      → get m.strategy_executors strat_id ≡ some executor
      → Step x m (run_batch x strat_id executor intents w now m)
  sweep : (now : ℕ) (m : AuthCooldownManager A) → Step x m (sweep_expired now m).1

pub data Steps {A D W : Type 0} (x : Exchange D W) : (m m' : AuthCooldownManager A) → Type 0 where
  start : (m : AuthCooldownManager A) → Steps x m m
  next : (m m' m'' : AuthCooldownManager A) → Steps x m m' → Step x m' m'' → Steps x m m''

abbrev pub is_some : {V : Type 0} → Option V → Bool
is_some none = false
is_some (some v) = true

some_injective : {V : Type 0} {a b : V} → some a ≡ some b → a ≡ b
some_injective h = cc h

-- What holds of an executor with its expiry.
pub record InStep (e : IntentExecutor) (expiry : Option ℕ) : Type 0 where
  pub expires : e.auth_cooldown ≡ is_some expiry
  pub counted : e.auth_cooldown ≡ false → e.auth_failure_count < e.max_auth_failures
  pub able : 0 < e.max_auth_failures
  pub callback : is_some e.on_cooldown_entered ≡ true

pub record AllInStep {A : Type 0} (m : AuthCooldownManager A) : Type 0 where
  pub dict : IsDict m.auth_cooldown_until
  pub each :
      (id : Text) (e : IntentExecutor)
      → get m.strategy_executors id ≡ some e
      → InStep e (get m.auth_cooldown_until id)

reset-InStep :
    (o : Option IntentExecutor) (t : Option ℕ) (e' : IntentExecutor)
    → ((e : IntentExecutor) → o ≡ some e → InStep e t)
    → reset_if true o ≡ some e'
    → InStep e' none
unfolding reset_auth_cooldown
reset-InStep none t e' h q = absurd (cc q)
reset-InStep (some e) t e' h q =
    let before = h e refl in
    let same : reset_auth_cooldown e ≡ e' = cc q in
    subst (λ y. InStep y none) same
      (record {
        expires = refl;
        counted = λ off. before.able;
        able = before.able;
        callback = before.callback;
      })

swept-InStep :
    (now : ℕ) (t : Option ℕ) (o : Option IntentExecutor) (e' : IntentExecutor)
    → ((e : IntentExecutor) → o ≡ some e → InStep e t)
    → reset_if (is_due now t) o ≡ some e'
    → InStep e' (without (is_due now t) t)
swept-InStep now none o e' h q = h e' q
swept-InStep now (some t) o e' h q = elim (Bool-cases (leb t now)) [
  | inl due ↦ rw due (reset-InStep o (some t) e' h (ap (λ b. reset_if b o) (sym due) ∙ q))
  | inr early ↦ rw early (h e' (ap (λ b. reset_if b o) (sym early) ∙ q))
]

-- How often the callback of an executor was called, for each way the cooldown may go.
calls-once :
    (was is_on : Bool) (calls calls' : Option ℕ)
    → calls' ≡ calls_after was is_on calls
    → is_some calls ≡ true
    → (calls_between calls calls' ≡ (if is_on && not was then 1 else 0)) × (is_some calls' ≡ true)
calls-once was is_on none calls' h k = absurd (cc k)
calls-once true true (some n) calls' h k = rw h (omega arith, refl)
calls-once true false (some n) calls' h k = rw h (omega arith, refl)
calls-once false true (some n) calls' h k = rw h (omega arith, refl)
calls-once false false (some n) calls' h k = rw h (omega arith, refl)

module _ {A : Type 0} where
  -- What the calls of the callback leave, for an executor that has just run.
  record Delivered (id : Text) (is_on was : Bool) (m m' : AuthCooldownManager A) : Type 0 where
    dict : IsDict m.auth_cooldown_until → IsDict m'.auth_cooldown_until
    same : m'.strategy_executors ≡ m.strategy_executors
    own :
        was ≡ is_some (get m.auth_cooldown_until id)
        → (was ≡ true → is_on ≡ true)
        → is_on ≡ is_some (get m'.auth_cooldown_until id)
    other :
        (k : Text)
        → same_text id k ≡ false
        → get m'.auth_cooldown_until k ≡ get m.auth_cooldown_until k

  deliver-Delivered :
      (id : Text) (now : ℕ) (is_on was : Bool) (m : AuthCooldownManager A)
      → Delivered id is_on was m (deliver (if is_on && not was then 1 else 0) id now m)
  unfolding start_cooldown
  deliver-Delivered id now true false m =
      let t = now + minutes m.cooldown_minutes in
      record {
        dict = IsDict-put m.auth_cooldown_until id t;
        same = refl;
        own = λ h k. sym (ap is_some (get-put_self m.auth_cooldown_until id t));
        other = λ k h. get-put_ne m.auth_cooldown_until id k t (same_text_ne id k h);
      }
  deliver-Delivered id now true true m = record {
    dict = λ d. d;
    same = refl;
    own = λ h k. h;
    other = λ k h. refl;
  }
  deliver-Delivered id now false true m = record {
    dict = λ d. d;
    same = refl;
    own = λ h k. absurd (cc (k refl));
    other = λ k h. refl;
  }
  deliver-Delivered id now false false m = record {
    dict = λ d. d;
    same = refl;
    own = λ h k. h;
    other = λ k h. refl;
  }

module _ {A D W : Type 0} (x : Exchange D W) where
  run_batch-AllInStep :
      (id : Text) (e : IntentExecutor) (intents : List (Intent D)) (w : W) (now : ℕ)
      (m : AuthCooldownManager A)
      → get m.strategy_executors id ≡ some e
      → AllInStep m
      → AllInStep (run_batch x id e intents w now m)
  unfolding run_batch
  run_batch-AllInStep id e intents w now m h a =
      let e' = (execute_batch x intents (e, w)).1.0 in
      let p = execute_batch-Progress x intents (e, w) in
      let before = a.each id e h in
      let once =
        calls-once e.auth_cooldown e'.auth_cooldown e.on_cooldown_entered e'.on_cooldown_entered
          p.calls before.callback in
      let ran = record m { strategy_executors = put m.strategy_executors id e' } in
      let d = deliver-Delivered id now e'.auth_cooldown e.auth_cooldown ran in
      let last = deliver (if e'.auth_cooldown && not e.auth_cooldown then 1 else 0) id now ran in
      let own : InStep e' (get last.auth_cooldown_until id) = record {
        expires = d.own before.expires p.stays;
        counted = p.tracked before.counted;
        able = omega (arith, before.able, p.same_max);
        callback = once.1;
      } in
      subst (λ n. AllInStep (deliver n id now ran)) (sym once.0)
        (record {
          dict = d.dict a.dict;
          each = λ k f there.
              let found = ap (λ ex. get ex k) (sym d.same) ∙ there in
              elim (same_text-cases id k) [
                | inl here ↦
                    let is_e' = some_injective (
                      sym (get-put_self m.strategy_executors id e')
                      ∙ ap (get (put m.strategy_executors id e')) here
                      ∙ found) in
                    subst (λ y. InStep y (get last.auth_cooldown_until k)) is_e'
                      (subst (λ y. InStep e' (get last.auth_cooldown_until y)) here own)
                | inr away ↦
                    let kept = get-put_ne m.strategy_executors id k e' (same_text_ne id k away) in
                    subst (InStep f) (sym (d.other k away)) (a.each k f (sym kept ∙ found))
              ];
        })

  sweep_expired-AllInStep :
      (now : ℕ) (m : AuthCooldownManager A) → AllInStep m → AllInStep (sweep_expired now m).1
  sweep_expired-AllInStep now m a =
      let swept = sweep_expired-SweptAt now m a.dict in
      record {
        dict = swept.1.dict;
        each = λ id e' h. subst (InStep e') (sym (swept.1.expiry id)) (
            swept-InStep now (get m.auth_cooldown_until id) (get m.strategy_executors id) e'
              (a.each id) (sym (swept.1.executor id) ∙ h));
      }

  Step-AllInStep : (m m' : AuthCooldownManager A) → Step x m m' → AllInStep m → AllInStep m'
  Step-AllInStep _ _ (Step.batch id e intents w now m h) a =
      run_batch-AllInStep id e intents w now m h a
  Step-AllInStep _ _ (Step.sweep now m) a = sweep_expired-AllInStep now m a

  -- At every moment of a run in which batches of any strategies and sweeps follow each other in any
  -- order, the executors in a cooldown are those with an expiry to come, and outside a cooldown an
  -- executor's count of failures is below its maximum, if this holds at the start and the executors
  -- have their callbacks and a maximum above zero then.
  pub Steps-AllInStep : (m m' : AuthCooldownManager A) → Steps x m m' → AllInStep m → AllInStep m'
  Steps-AllInStep _ _ (Steps.start m) a = a
  Steps-AllInStep _ _ (Steps.next m m' m'' before step) a =
      Step-AllInStep m' m'' step (Steps-AllInStep m m' before a)

  -- No cooldown outlasts its time. At every moment of such a run, an executor in a cooldown has an
  -- expiry, and whenever a sweep runs at that expiry or later, no step between, the executor is out of its cooldown after it,
  -- with no failure counted, and the expiry is gone.
  pub cooldown-ends :
      (m m' : AuthCooldownManager A) (id : Text) (e : IntentExecutor)
      → Steps x m m'
      → AllInStep m
      → get m'.strategy_executors id ≡ some e
      → e.auth_cooldown ≡ true
      → (expiry : ℕ) × (get m'.auth_cooldown_until id ≡ some expiry)
        × ((now : ℕ)
            → expiry ≤ now
            → (get (sweep_expired now m').1.strategy_executors id ≡ some (reset_auth_cooldown e))
              × (get (sweep_expired now m').1.auth_cooldown_until id ≡ none))
  cooldown-ends m m' id e run a h on =
      let a' = Steps-AllInStep m m' run a in
      let here = a'.each id e h in
      elim (Option-cases (get m'.auth_cooldown_until id)) [
        | inl absent ↦ absurd (cc (here.expires, on, ap is_some absent))
        | inr (expiry, found) ↦ (
          expiry,
          found,
          λ now late.
              let swept = (sweep_expired-SweptAt now m' a'.dict).1 in
              let due : is_due now (get m'.auth_cooldown_until id) ≡ true =
                ap (is_due now) found ∙ ground arith in
              (
                swept.executor id
                    ∙ ap (λ b. reset_if b (get m'.strategy_executors id)) due
                    ∙ ap (reset_if true) h,
                swept.expiry id ∙ ap (λ b. without b (get m'.auth_cooldown_until id)) due,
              ),
        )
      ]
