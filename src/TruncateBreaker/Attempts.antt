-- ===== src/TruncateBreaker/Attempts.antt =====
-- What one attempt does to the breaker: apps/gridbot/src/gridbot/truncate_breaker.py and the two
-- calls of it in _execute_place_intent of apps/gridbot/src/gridbot/runner.py.
use grid_bot_validation.Prelude.{
  ℕ, ◌+◌, ltb, leb, ◌≡◌, refl, sym, ap, ap₂, subst, ◌∙◌, inl, inr, true, false, none, some, [], ◌∷◌,
  ◌++◌, length, if◌then◌else◌, Bool-cases, Option-cases,
}
use grid_bot_validation.Decimal.{Decimals}
use grid_bot_validation.TruncateBreaker.{
  ScopeKey, TruncateBreaker, evict_old, same_key, reset, blocked_until, count_event, record_until,
}
use grid_bot_validation.TruncateBreaker.Storm.{attempt, after_event}

module _ {D : Type 0} ⦃dec : Decimals D⦄ where
  pub count_event-own :
      (key : ScopeKey D) (t : ℕ) (b : TruncateBreaker D)
      → same_key key key ≡ true
      → b.tripped_until key ≡ none
      → let b' = (count_event key t b).1 in
        (b'.config ≡ b.config)
        × ((b'.events key, b'.tripped_until key) ≡ after_event b.config t (b.events key))
  unfolding count_event
  count_event-own key t b self calm =
      let dq = evict_old b.config.window t (b.events key ++ t ∷ []) in
      elim (Bool-cases (leb b.config.max_consecutive (length dq))) [
        | inl many ↦ rw many (
          refl,
          ap
              (λ x. (
                if x then dq else b.events key,
                if x then some (t + b.config.cooldown) else b.tripped_until key,
              ))
              self,
        )
        | inr few ↦ rw few (refl, ap₂ (λ x y. (if x then dq else b.events key, y)) self calm)
      ]

  pub count_event-other :
      (key other : ScopeKey D) (t : ℕ) (b : TruncateBreaker D)
      → same_key key other ≡ false
      → let b' = (count_event key t b).1 in
        (b'.config ≡ b.config)
        × (b'.events other ≡ b.events other)
        × (b'.tripped_until other ≡ b.tripped_until other)
  unfolding count_event
  count_event-other key other t b apart =
      let dq = evict_old b.config.window t (b.events key ++ t ∷ []) in
      let same_events = ap (λ x. if x then dq else b.events other) apart in
      elim (Bool-cases (leb b.config.max_consecutive (length dq))) [
        | inl many ↦ rw many (
          refl,
          same_events,
          ap (λ x. if x then some (t + b.config.cooldown) else b.tripped_until other) apart,
        )
        | inr few ↦ rw few (refl, same_events, refl)
      ]

  pub attempt_calm :
      (key : ScopeKey D) (t : ℕ) (b : TruncateBreaker D)
      → b.tripped_until key ≡ none
      → attempt key t b ≡ (true, (count_event key t b).1)
  unfolding attempt blocked_until record_until
  attempt_calm key t b calm = rw (calm, calm) refl

  pub attempt_blocked :
      (key : ScopeKey D) (t until : ℕ) (b : TruncateBreaker D)
      → b.tripped_until key ≡ some until
      → ltb t until ≡ true
      → attempt key t b ≡ (false, b)
  unfolding attempt blocked_until
  attempt_blocked key t until b tripped early = rw (tripped, early) refl

  pub attempt_over :
      (key : ScopeKey D) (t until : ℕ) (b : TruncateBreaker D)
      → same_key key key ≡ true
      → b.tripped_until key ≡ some until
      → ltb t until ≡ false
      → attempt key t b ≡ (true, (count_event key t (reset key b)).1)
  unfolding attempt blocked_until record_until
  attempt_over key t until b self tripped late = rw (tripped, late, self) refl

  -- The entries of another key stay.
  pub record Untouched (other : ScopeKey D) (b b' : TruncateBreaker D) : Type 0 where
    pub config : b'.config ≡ b.config
    pub events : b'.events other ≡ b.events other
    pub tripped_until : b'.tripped_until other ≡ b.tripped_until other

  count_event-Untouched :
      (key other : ScopeKey D) (t : ℕ) (b : TruncateBreaker D)
      → same_key key other ≡ false
      → Untouched other b (count_event key t b).1
  count_event-Untouched key other t b apart =
      let same = count_event-other key other t b apart in
      record { config = same.0; events = same.1; tripped_until = same.2 }

  pub attempt-Untouched :
      (key other : ScopeKey D) (t : ℕ) (b : TruncateBreaker D)
      → same_key key key ≡ true
      → same_key key other ≡ false
      → Untouched other b (attempt key t b).1
  attempt-Untouched key other t b self apart = elim (Option-cases (b.tripped_until key)) [
    | inl calm ↦
        subst (λ x. Untouched other b x.1) (sym (attempt_calm key t b calm))
          (count_event-Untouched key other t b apart)
    | inr (until, tripped) ↦ elim (Bool-cases (ltb t until)) [
      | inl early ↦
          subst (λ x. Untouched other b x.1) (sym (attempt_blocked key t until b tripped early))
            (record { config = refl; events = refl; tripped_until = refl })
      | inr late ↦
          let same = count_event-Untouched key other t (reset key b) apart in
          subst (λ x. Untouched other b x.1) (sym (attempt_over key t until b self tripped late))
            (record {
              config = same.config;
              events = same.events ∙ ap (λ x. if x then [] else b.events other) apart;
              tripped_until =
                  same.tripped_until ∙ ap (λ x. if x then none else b.tripped_until other) apart;
            })
    ]
  ]
