-- ===== src/AuthCooldown/Sweep.antt =====
-- What a sweep leaves: `sweep_expired` of apps/gridbot/src/gridbot/auth_cooldown_manager.py.
use grid_bot_validation.Prelude.{
  ℕ, leb, ◌≡◌, ◌≢◌, refl, sym, ap, subst, ◌∙◌, inl, inr, Bool, true, false, ◌&&◌, ◌||◌, Option,
  none, some, List, [], ◌∷◌, arith, Bool-cases, Option-cases,
}
use grid_bot_validation.Text.{Text, same_text, same_text-of, same_text_comm, same_text-cases}
use grid_bot_validation.Outcome.{Action, ok, bind_ok}
use grid_bot_validation.Dict.{Dict, get, keys, contains}
use grid_bot_validation.Dict.Laws.{
  same_text_ne, IsDict, IsDict-pop, get-put_self, get-put_ne, get-pop_self, get-pop_ne,
}
use grid_bot_validation.Executor.{IntentExecutor, reset_auth_cooldown}
use grid_bot_validation.AuthCooldown.{
  AuthCooldownManager, resume, expire, sweep_one, sweep_keys, sweep_expired,
}

-- The time of an expiry has come.
abbrev pub is_due : (now : ℕ) → Option ℕ → Bool
is_due now none = false
is_due now (some expiry) = leb expiry now

abbrev pub without : {V : Type 0} → Bool → Option V → Option V
without true v = none
without false v = v

abbrev pub reset_if : Bool → Option IntentExecutor → Option IntentExecutor
reset_if true (some e) = some (reset_auth_cooldown e)
reset_if _ o = o

not_due :
    (now : ℕ) (id : Text) (expiry : ℕ) (d : Dict ℕ) (other : Text)
    → get d id ≡ some expiry
    → leb expiry now ≡ false
    → (same_text id other && is_due now (get d other)) ≡ false
not_due now id expiry d other h early = elim (same_text-cases id other) [
  | inl here ↦ rw (← here, same_text-of id, h) early
  | inr away ↦ rw away refl
]

without_trans :
    (now : ℕ) (a b : Bool) (t : Option ℕ)
    → without (b && is_due now (without (a && is_due now t) t)) (without (a && is_due now t) t)
      ≡ without ((a || b) && is_due now t) t
without_trans now a b none = ground arith
without_trans now a b (some t) = ground arith

reset_trans :
    (now : ℕ) (a b : Bool) (t : Option ℕ) (o : Option IntentExecutor)
    → reset_if (b && is_due now (without (a && is_due now t) t)) (reset_if (a && is_due now t) o)
      ≡ reset_if ((a || b) && is_due now t) o
reset_trans now a b none o = ground arith
reset_trans now a b (some t) o = ground arith

-- Every key of a list stands in a dict, and none stands twice in the list.
unfoldable pub AllIn : Dict ℕ → List Text → Type 0
AllIn d [] = Unit {0}
AllIn d (k ∷ ks) = ((t : ℕ) × (get d k ≡ some t)) × (contains ks k ≡ false) × AllIn d ks

AllIn-cons :
    (e : Text × ℕ) (d : Dict ℕ) (ks : List Text)
    → contains ks e.0 ≡ false
    → AllIn d ks
    → AllIn (e ∷ d) ks
unfolding AllIn get contains
AllIn-cons e d [] h a = tt
AllIn-cons e d (k ∷ ks) h (found, fresh, others) =
    let away : same_text e.0 k ≡ false = ground (arith, same_text_comm e.0 k, h) in
    let on : contains ks e.0 ≡ false = ground (arith, h) in
    ((found.0, rw away found.1), fresh, AllIn-cons e d ks on others)

contains-keys_absent : (d : Dict ℕ) (k : Text) → get d k ≡ none → contains (keys d) k ≡ false
unfolding get contains
contains-keys_absent [] k h = refl
contains-keys_absent (e ∷ d) k h = ground (arith, contains-keys_absent d k)

contains-keys_present :
    (d : Dict ℕ) (k : Text) (t : ℕ) → get d k ≡ some t → contains (keys d) k ≡ true
unfolding get contains
contains-keys_present [] k t h = absurd (cc h)
contains-keys_present (e ∷ d) k t h = ground (arith, contains-keys_present d k t)

all_keys :
    (now : ℕ) (d : Dict ℕ) (id : Text)
    → (contains (keys d) id && is_due now (get d id)) ≡ is_due now (get d id)
all_keys now d id = elim (Option-cases (get d id)) [
  | inl absent ↦ ground (arith, absent)
  | inr (t, here) ↦ ground (arith, contains-keys_present d id t here)
]

AllIn-keys : (d : Dict ℕ) → IsDict d → AllIn d (keys d)
unfolding AllIn IsDict get
AllIn-keys [] h = tt
AllIn-keys (e ∷ d) h =
    let absent = contains-keys_absent d e.0 h.0 in
    ((e.1, rw (same_text-of e.0) refl), absent, AllIn-cons e d (keys d) absent (AllIn-keys d h.1))

module _ {A : Type 0} where
  -- From `m` to `m'` exactly the cooldowns of some strategies that are due have ended.
  pub record SweptAt (among : Text → Bool) (now : ℕ) (m m' : AuthCooldownManager A) : Type 0 where
    pub dict : IsDict m'.auth_cooldown_until
    pub expiry :
        (id : Text)
        → get m'.auth_cooldown_until id
          ≡ without
              (among id && is_due now (get m.auth_cooldown_until id))
              (get m.auth_cooldown_until id)
    pub executor :
        (id : Text)
        → get m'.strategy_executors id
          ≡ reset_if
              (among id && is_due now (get m.auth_cooldown_until id))
              (get m.strategy_executors id)
    pub cycles : m'.auth_cooldown_cycles ≡ m.auth_cooldown_cycles
    pub queues : m'.retry_queues ≡ m.retry_queues

  resume-expiry :
      (id : Text) (o : Option IntentExecutor) (m : AuthCooldownManager A)
      → (resume id o m).auth_cooldown_until ≡ m.auth_cooldown_until
  unfolding resume
  resume-expiry id none m = refl
  resume-expiry id (some e) m = refl

  resume-cycles :
      (id : Text) (o : Option IntentExecutor) (m : AuthCooldownManager A)
      → (resume id o m).auth_cooldown_cycles ≡ m.auth_cooldown_cycles
  unfolding resume
  resume-cycles id none m = refl
  resume-cycles id (some e) m = refl

  resume-queues :
      (id : Text) (o : Option IntentExecutor) (m : AuthCooldownManager A)
      → (resume id o m).retry_queues ≡ m.retry_queues
  unfolding resume
  resume-queues id none m = refl
  resume-queues id (some e) m = refl

  resume_self :
      (id : Text) (o : Option IntentExecutor) (m : AuthCooldownManager A)
      → get m.strategy_executors id ≡ o
      → get (resume id o m).strategy_executors id ≡ reset_if true o
  unfolding resume
  resume_self id none m h = h
  resume_self id (some e) m h = get-put_self m.strategy_executors id (reset_auth_cooldown e)

  resume_ne :
      (id other : Text) (o : Option IntentExecutor) (m : AuthCooldownManager A)
      → id ≢ other
      → get (resume id o m).strategy_executors other ≡ get m.strategy_executors other
  unfolding resume
  resume_ne id other none m h = refl
  resume_ne id other (some e) m h =
      get-put_ne m.strategy_executors id other (reset_auth_cooldown e) h

  -- What one round does to an entry, and to an executor.
  SweptAt-one :
      (now : ℕ) (id : Text) (expiry : ℕ) (m : AuthCooldownManager A)
      → IsDict m.auth_cooldown_until
      → get m.auth_cooldown_until id ≡ some expiry
      → (sweep_one now id (some expiry) m ≡ (ok tt, (sweep_one now id (some expiry) m).1))
        × SweptAt (same_text id) now m (sweep_one now id (some expiry) m).1
  unfolding sweep_one expire
  SweptAt-one now id expiry m d h =
      let o = get m.strategy_executors id in
      elim (Bool-cases (leb expiry now)) [
        | inl due ↦ rw due (
          refl,
          record {
            dict = rw (resume-expiry id o m) (IsDict-pop m.auth_cooldown_until id d);
            expiry = λ other. elim (same_text-cases id other) [
              | inl here ↦
                  rw (resume-expiry id o m, ← here, same_text-of id, h, due)
                    (get-pop_self m.auth_cooldown_until id d)
              | inr away ↦
                  rw (resume-expiry id o m, away)
                    (get-pop_ne m.auth_cooldown_until id other (same_text_ne id other away))
            ];
            executor = λ other. elim (same_text-cases id other) [
              | inl here ↦ rw (← here, same_text-of id, h, due) (resume_self id o m refl)
              | inr away ↦ rw away (resume_ne id other o m (same_text_ne id other away))
            ];
            cycles = resume-cycles id o m;
            queues = resume-queues id o m;
          },
        )
        | inr early ↦ rw early (
          refl,
          record {
            dict = d;
            expiry = λ other. rw (not_due now id expiry m.auth_cooldown_until other h early) refl;
            executor = λ other. rw (not_due now id expiry m.auth_cooldown_until other h early) refl;
            cycles = refl;
            queues = refl;
          },
        )
      ]

  SweptAt-trans :
      (a b : Text → Bool) (now : ℕ) (m m' m'' : AuthCooldownManager A)
      → SweptAt a now m m'
      → SweptAt b now m' m''
      → SweptAt (λ id. a id || b id) now m m''
  SweptAt-trans a b now m m' m'' p q = record {
    dict = q.dict;
    expiry = λ id.
        q.expiry id
        ∙ ap (λ t. without (b id && is_due now t) t) (p.expiry id)
        ∙ without_trans now (a id) (b id) (get m.auth_cooldown_until id);
    executor = λ id.
        q.executor id
        ∙ ap (λ t. reset_if (b id && is_due now t) (get m'.strategy_executors id)) (p.expiry id)
        ∙ ap
            (reset_if (
              b id
              && is_due now (
                  without (a id && is_due now (get m.auth_cooldown_until id))
                    (get m.auth_cooldown_until id))))
            (p.executor id)
        ∙ reset_trans now (a id) (b id) (get m.auth_cooldown_until id)
            (get m.strategy_executors id);
    cycles = q.cycles ∙ p.cycles;
    queues = q.queues ∙ p.queues;
  }

  AllIn-after :
      (now : ℕ) (id : Text) (ks : List Text) (m m' : AuthCooldownManager A)
      → SweptAt (same_text id) now m m'
      → contains ks id ≡ false
      → AllIn m.auth_cooldown_until ks
      → AllIn m'.auth_cooldown_until ks
  unfolding AllIn contains
  AllIn-after now id [] m m' p h a = tt
  AllIn-after now id (k ∷ ks) m m' p h (found, fresh, others) =
      let away : same_text id k ≡ false = ground (arith, same_text_comm id k, h) in
      (
        (found.0, p.expiry k ∙ rw away found.1),
        fresh,
        AllIn-after now id ks m m' p (ground (arith, h)) others,
      )

  sweep_keys-SweptAt :
      (now : ℕ) (ks : List Text) (m : AuthCooldownManager A)
      → IsDict m.auth_cooldown_until
      → AllIn m.auth_cooldown_until ks
      → ((sweep_keys now ks m).0 ≡ ok tt) × SweptAt (contains ks) now m (sweep_keys now ks m).1
  unfolding sweep_keys AllIn contains
  sweep_keys-SweptAt now [] m d a = (
    refl,
    record { dict = d; expiry = λ id. refl; executor = λ id. refl; cycles = refl; queues = refl },
  )
  sweep_keys-SweptAt now (k ∷ ks) m d (found, fresh, others) =
      let step : Action (AuthCooldownManager A) (Unit {0}) =
        λ s. sweep_one now k (get s.auth_cooldown_until k) s in
      let m' = (step m).1 in
      let one =
        subst
          (λ o.
            (sweep_one now k o m ≡ (ok tt, (sweep_one now k o m).1))
            × SweptAt (same_text k) now m (sweep_one now k o m).1)
          (sym found.1) (SweptAt-one now k found.0 m d found.1) in
      let rest =
        sweep_keys-SweptAt now ks m' one.1.dict (AllIn-after now k ks m m' one.1 fresh others) in
      let whole = SweptAt-trans (same_text k) (contains ks) now m m' _ one.1 rest.1 in
      subst (λ r. (r.0 ≡ ok tt) × SweptAt (λ id. same_text k id || contains ks id) now m r.1)
        (sym (bind_ok step (λ _. sweep_keys now ks) m (ap (λ r. r.0) one.0))) (rest.0, whole)

  -- A sweep of a dict of expiries never raises. It ends the cooldowns whose expiry is at or before
  -- `now`, and those alone: their expiries are taken out, and their executors are reset; every other
  -- expiry and executor, the counts of cycles and the retry queues stay as they are.
  pub sweep_expired-SweptAt :
      (now : ℕ) (m : AuthCooldownManager A)
      → IsDict m.auth_cooldown_until
      → ((sweep_expired now m).0 ≡ ok tt) × SweptAt (λ id. true) now m (sweep_expired now m).1
  unfolding sweep_expired
  sweep_expired-SweptAt now m d =
      let t = m.auth_cooldown_until in
      let swept = sweep_keys-SweptAt now (keys t) m d (AllIn-keys t d) in
      (
        swept.0,
        record {
          dict = swept.1.dict;
          expiry = λ id. swept.1.expiry id ∙ ap (λ b. without b (get t id)) (all_keys now t id);
          executor = λ id.
              swept.1.executor id
              ∙ ap (λ b. reset_if b (get m.strategy_executors id)) (all_keys now t id);
          cycles = swept.1.cycles;
          queues = swept.1.queues;
        },
      )
