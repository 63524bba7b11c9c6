-- ===== src/TruncateBreaker/Bound.antt =====
-- The bound on what gets through: apps/gridbot/src/gridbot/truncate_breaker.py and the two
-- calls of it in _execute_place_intent of apps/gridbot/src/gridbot/runner.py.
use grid_bot_validation.Prelude.{
  append_assoc, append-nil, ℕ, ◌+◌, ◌≤◌, ◌<◌, ltb, ◌≡◌, refl, sym, ap, ap₂, subst, ◌∙◌, inl, inr,
  Bool, true, false, ◌&&◌, Option, none, some, List, [], ◌∷◌, ◌++◌, if◌then◌else◌, arith,
  Bool-cases, Option-cases,
}
use grid_bot_validation.Decimal.{Decimals}
use grid_bot_validation.Decimal.Order.{IsOrdered}
use grid_bot_validation.Backtest.{OrderSide, same_side}
use grid_bot_validation.TruncateBreaker.{
  ScopeKey, BreakerConfig, TruncateBreaker, breaker, same_key, reset, count_event,
}
use grid_bot_validation.TruncateBreaker.Counts.{count_from, count_between}
use grid_bot_validation.TruncateBreaker.Storm.{
  attempt, sent, InTime, Bounded, Open, StateOk, after_event, Bounded-send, StateOk-send, reopen,
  Bounded-later, Open-later,
}
use grid_bot_validation.TruncateBreaker.Attempts.{
  attempt-Untouched, count_event-own, attempt_calm, attempt_blocked, attempt_over,
}

same_side_self : (a : OrderSide) → same_side a a ≡ true
same_side_self OrderSide.buy = refl
same_side_self OrderSide.sell = refl
same_side_self OrderSide.other = refl

same_side_eq : (a b : OrderSide) → same_side a b ≡ true → a ≡ b
same_side_eq OrderSide.buy OrderSide.buy h = refl
same_side_eq OrderSide.sell OrderSide.sell h = refl
same_side_eq OrderSide.other OrderSide.other h = refl
same_side_eq OrderSide.buy OrderSide.sell h = absurd (cc h)
same_side_eq OrderSide.buy OrderSide.other h = absurd (cc h)
same_side_eq OrderSide.sell OrderSide.buy h = absurd (cc h)
same_side_eq OrderSide.sell OrderSide.other h = absurd (cc h)
same_side_eq OrderSide.other OrderSide.buy h = absurd (cc h)
same_side_eq OrderSide.other OrderSide.sell h = absurd (cc h)

module _ {D : Type 0} ⦃dec : Decimals D⦄ (o : IsOrdered dec) where
  same_key_self : (k : ScopeKey D) → same_key k k ≡ true
  same_key_self k = ground (arith, same_side_self k.0, (o.eq_iff k.1 k.1).1 refl)

  same_key_eq : (k k' : ScopeKey D) → same_key k k' ≡ true → k ≡ k'
  same_key_eq k k' h =
      let side : same_side k.0 k'.0 ≡ true = ground (arith, h) in
      let price : dec.eq k.1 k'.1 ≡ true = ground (arith, h) in
      ap₂ (λ x y. (x, y)) (same_side_eq k.0 k'.0 side) ((o.eq_iff k.1 k'.1).0 price)

-- The log after an attempt at the key.
abbrev log_after : Bool → ℕ → List ℕ → List ℕ
log_after went t log = if went then log ++ t ∷ [] else log

module _ {D : Type 0} ⦃dec : Decimals D⦄ (c : BreakerConfig) (span : ℕ) (key : ScopeKey D) where
  -- The bound and the state of the key, for the times sent so far.
  record Kept (now : ℕ) (log : List ℕ) (b : TruncateBreaker D) : Type 0 where
    same_config : b.config ≡ c
    bounded : Bounded c.max_consecutive span now log
    state : StateOk c span now log (b.events key) (b.tripped_until key)

  Kept-count :
      (now t : ℕ) (log : List ℕ) (b : TruncateBreaker D)
      → same_key key key ≡ true
      → span ≤ c.window
      → now ≤ t
      → b.config ≡ c
      → b.tripped_until key ≡ none
      → Bounded c.max_consecutive span now log
      → Open c.max_consecutive span now log (b.events key)
      → Kept t (log ++ t ∷ []) (count_event key t b).1
  Kept-count now t log b self narrow later config calm bounded is_open =
      let own = count_event-own key t b self calm in
      let after = own.1 ∙ ap (λ x. after_event x t (b.events key)) config in
      record {
        same_config = own.0 ∙ config;
        bounded = Bounded-send c span now t log (b.events key) later bounded is_open;
        state =
            subst (λ x. StateOk c span t (log ++ t ∷ []) x.0 x.1) (sym after)
              (StateOk-send c span now t log (b.events key) later narrow bounded is_open);
      }

  attempt-Kept :
      (now t : ℕ) (log : List ℕ) (b : TruncateBreaker D)
      → same_key key key ≡ true
      → span ≤ c.window
      → span ≤ c.cooldown
      → 0 < c.max_consecutive
      → now ≤ t
      → Kept now log b
      → let (went, b') = attempt key t b in Kept t (log_after went t log) b'
  attempt-Kept now t log b self narrow rest positive later kept =
      elim (Option-cases (b.tripped_until key)) [
        | inl calm ↦
            let is_open = subst (StateOk c span now log (b.events key)) calm kept.state in
            subst (λ x. Kept t (log_after x.0 t log) x.1) (sym (attempt_calm key t b calm))
              (Kept-count now t log b self narrow later kept.same_config calm kept.bounded is_open)
        | inr (until, tripped) ↦
            let was = subst (StateOk c span now log (b.events key)) tripped kept.state in
            elim (Bool-cases (ltb t until)) [
              | inl early ↦
                  subst (λ x. Kept t (log_after x.0 t log) x.1)
                    (sym (attempt_blocked key t until b tripped early))
                    (record {
                      same_config = kept.same_config;
                      bounded = Bounded-later c.max_consecutive span now t log later kept.bounded;
                      state = subst (StateOk c span t log (b.events key)) (sym tripped) was;
                    })
              | inr late ↦
                  let cleared = ap (λ x. if x then [] else b.events key) self in
                  let is_open = reopen c span now t until log rest positive (ground arith) was in
                  subst (λ x. Kept t (log_after x.0 t log) x.1)
                    (sym (attempt_over key t until b self tripped late))
                    (Kept-count t t log (reset key b) self narrow (omega arith) kept.same_config
                      (ap (λ x. if x then none else b.tripped_until key) self)
                      (Bounded-later c.max_consecutive span now t log later kept.bounded)
                      (subst (Open c.max_consecutive span t log) (sym cleared) is_open))
            ]
      ]

  StateOk-later :
      (now t : ℕ) (log events : List ℕ) (until : Option ℕ)
      → now ≤ t
      → StateOk c span now log events until
      → StateOk c span t log events until
  StateOk-later now t log events none h s = Open-later c.max_consecutive span now t log events h s
  StateOk-later now t log events (some until) h s = s

  attempt_other-Kept :
      (k : ScopeKey D) (now t : ℕ) (log : List ℕ) (b : TruncateBreaker D)
      → same_key k k ≡ true
      → same_key k key ≡ false
      → now ≤ t
      → Kept now log b
      → Kept t log (attempt k t b).1
  attempt_other-Kept k now t log b self apart later kept =
      let same = attempt-Untouched k key t b self apart in
      record {
        same_config = same.config ∙ kept.same_config;
        bounded = Bounded-later c.max_consecutive span now t log later kept.bounded;
        state =
            subst (λ (x : List ℕ × Option ℕ). StateOk c span t log x.0 x.1)
              (ap₂ (λ x y. (x, y)) (sym same.events) (sym same.tripped_until))
              (StateOk-later now t log (b.events key) (b.tripped_until key) later kept.state);
      }

module _ {D : Type 0} ⦃dec : Decimals D⦄ (o : IsOrdered dec) (c : BreakerConfig) (span : ℕ)
    (key : ScopeKey D) where
  sent-few :
      (es : List (ScopeKey D × ℕ)) (now : ℕ) (log : List ℕ) (b : TruncateBreaker D)
      → span ≤ c.window
      → span ≤ c.cooldown
      → 0 < c.max_consecutive
      → InTime now es
      → Kept c span key now log b
      → (a : ℕ) → count_between a (a + span) (log ++ sent key es b) ≤ c.max_consecutive
  unfolding sent InTime
  sent-few [] now log b narrow rest positive time kept a = rw (append-nil log) (kept.bounded.few a)
  sent-few (e ∷ es) now log b narrow rest positive (later, time) kept a =
      let (k, t) = e in
      let went = (attempt k t b).0 in
      let b' = (attempt k t b).1 in
      let within : Bool → Type 0 = λ x.
        count_between a (a + span) (log ++ (if x then t ∷ sent key es b' else sent key es b'))
        ≤ c.max_consecutive in
      elim (Bool-cases (same_key k key)) [
        | inr apart ↦
            let kept' =
              attempt_other-Kept c span key k now t log b (same_key_self o k) apart later kept in
            let skip : (went && same_key k key) ≡ false = ground (arith, apart) in
            subst within (sym skip) (sent-few es t log b' narrow rest positive time kept' a)
        | inl own ↦
            let kept' : Kept c span key t (log_after went t log) b' =
              subst (λ x. Kept c span key t (log_after (attempt x t b).0 t log) (attempt x t b).1)
                (sym (same_key_eq o k key own))
                (attempt-Kept c span key now t log b (same_key_self o key) narrow rest positive
                  later kept) in
            elim (Bool-cases went) [
              | inl through ↦
                  let go : (went && same_key k key) ≡ true = ground (arith, through, own) in
                  let more = subst (λ x. Kept c span key t (log_after x t log) b') through kept' in
                  subst within (sym go) (
                    subst (λ x. count_between a (a + span) x ≤ c.max_consecutive)
                      (append_assoc log (t ∷ []) (sent key es b'))
                      (sent-few es t (log ++ t ∷ []) b' narrow rest positive time more a))
              | inr blocked ↦
                  let skip : (went && same_key k key) ≡ false = ground (arith, blocked) in
                  let same = subst (λ x. Kept c span key t (log_after x t log) b') blocked kept' in
                  subst within (sym skip) (sent-few es t log b' narrow rest positive time same a)
            ]
      ]

  -- In a storm of placements that the exchange would all refuse for their quantity, at any keys and by a
  -- clock that does not go back, no span of time that is no longer than the window and no longer than
  -- the cooldown holds more than `max_consecutive` sendings at one side and price, if that is at least one.
  pub sent-bound :
      (es : List (ScopeKey D × ℕ)) (start a : ℕ)
      → span ≤ c.window
      → span ≤ c.cooldown
      → 0 < c.max_consecutive
      → InTime start es
      → count_between a (a + span) (sent key es (breaker c)) ≤ c.max_consecutive
  unfolding count_from count_between
  sent-bound es start a narrow rest positive time =
      sent-few es start [] (breaker c) narrow rest positive time
        (record {
          same_config = refl;
          bounded = record { past = λ x h. refl; few = λ x. omega arith };
          state = record { short = positive; recent = λ x h. omega arith };
        })
        a
