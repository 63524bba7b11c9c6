-- ===== src/Runner/Keeps.antt =====
-- What the guard of a placement leaves alone, and what it has found: apps/gridbot/src/gridbot/runner.py.
use grid_bot_validation.Prelude.{
  ℕ, ◌≡◌, refl, ◌∙◌, inl, inr, leb, length, ◌&&◌, Bool, true, false, not, Option, none, some, List,
  [], ◌∷◌, ◌++◌, if◌then◌else◌, arith, Bool-cases,
}
use grid_bot_validation.Text.{Text}
use grid_bot_validation.Decimal.{Decimals, zero_dec}
use grid_bot_validation.Backtest.{OrderDirection}
use grid_bot_validation.SafetyCaps.{Reason}
use grid_bot_validation.Executor.{PlaceLimitIntent, Answer}
use grid_bot_validation.TruncateBreaker.{is_blocked, evict_old}
use grid_bot_validation.Runner.{Limits, StrategyRunner, RunState, Outside, PositionEntry}
use grid_bot_validation.Runner.Guard.{
  CapBlock, evaluate_safety_caps, emit_safety_cap_rejection, refreshed, read_size, sized_by,
  refresh_position_size_from_rest, refresh_if_dirty, scan_orders, fits_position, position_size,
  clear_dirty, good_after, is_good_to_place, is_throttled, warned,
}
use grid_bot_validation.Runner.Admit.{pass_caps, admit}
use grid_bot_validation.Runner.Place.{
  note_trip, add_failure, after_success, record_placement_failure, on_error, is_mixed_failure,
}

-- The tracked orders and the failures that were reported are the same.
pub record Kept {D : Type 0} (s s' : StrategyRunner D) : Type 0 where
  pub tracked : s'.tracked_orders ≡ s.tracked_orders
  pub failed : s'.failed_intents ≡ s.failed_intents

pub Kept-trans : {D : Type 0} {s s' s'' : StrategyRunner D} → Kept s s' → Kept s' s'' → Kept s s''
Kept-trans k l = record { tracked = l.tracked ∙ k.tracked; failed = l.failed ∙ k.failed }

-- What holds after both branches of a test holds after the test.
pub holds_one :
    {D W : Type 0} (P : StrategyRunner D → Type 0) (b : Bool) (u v : RunState D W)
    → P u.0
    → P v.0
    → P (if b then u else v).0
holds_one P true u v p q = p
holds_one P false u v p q = q

-- What `_is_good_to_place` has found for an intent that it lets through.
pub record IsGood {D : Type 0} ⦃dec : Decimals D⦄ (limits : Limits D) (s : StrategyRunner D)
    (i : PlaceLimitIntent D) : Type 0 where
  pub sum : D
  pub scanned : scan_orders i zero_dec (limits.long_orders ++ limits.short_orders) ≡ some sum
  pub fits : i.reduce_only ≡ true → fits_position i sum (position_size i.direction s) ≡ true

-- The state after the guard, for each of its answers.
abbrev pub Passes :
    {D : Type 0} ⦃dec : Decimals D⦄
    → Limits D
    → (s s' : StrategyRunner D) → Option (PlaceLimitIntent D × ℕ)
    → Type 0
Passes limits s s' none = Kept s s'
Passes limits s s' (some (i, now)) = Kept s s' × IsGood limits s' i

module _ {D : Type 0} ⦃dec : Decimals D⦄ where
  refreshed-Kept :
      (direction : OrderDirection) (size : Option D) (s : StrategyRunner D)
      → Kept s (refreshed direction size s)
  refreshed-Kept direction none s = record { tracked = refl; failed = refl }
  refreshed-Kept OrderDirection.long (some size) s = record { tracked = refl; failed = refl }
  refreshed-Kept OrderDirection.short (some size) s = record { tracked = refl; failed = refl }
  refreshed-Kept OrderDirection.other (some size) s = record { tracked = refl; failed = refl }

warned-Kept :
    {D W : Type 0} (throttled : Bool) (now : ℕ) (reason : Reason) (st : RunState D W)
    → Kept st.0 (warned throttled now reason st).0
warned-Kept true now reason st = record { tracked = refl; failed = refl }
warned-Kept false now reason (s, w) = record { tracked = refl; failed = refl }

module _ {D : Type 0} where
  pub note_trip-Kept :
      (tripped : Bool) (i : PlaceLimitIntent D) (s : StrategyRunner D)
      → Kept s (note_trip tripped i s)
  note_trip-Kept true i s = record { tracked = refl; failed = refl }
  note_trip-Kept false i s = record { tracked = refl; failed = refl }

  add_failure-Kept : (now : ℕ) (s : StrategyRunner D) → Kept s (add_failure now s)
  add_failure-Kept now s =
      let window =
        evict_old s.config.divergence_failure_mix_window now
          (s.placement_failure_window ++ now ∷ []) in
      elim (Bool-cases (leb s.config.divergence_failure_mix_threshold (length window))) [
        | inl full ↦ rw full (record { tracked = refl; failed = refl })
        | inr short ↦ rw short (record { tracked = refl; failed = refl })
      ]

  pub after_success-Kept :
      ⦃dec : Decimals D⦄ (i : PlaceLimitIntent D) (s : StrategyRunner D)
      → Kept s (after_success i s)
  unfolding after_success clear_dirty
  after_success-Kept i s = elim (Bool-cases i.reduce_only) [
    | inl closes ↦ rw closes (record { tracked = refl; failed = refl })
    | inr opens ↦ rw opens (record { tracked = refl; failed = refl })
  ]

pub record_placement_failure-Kept :
    {D W : Type 0} (x : Outside D W) (error : Option Text) (st : RunState D W)
    → Kept st.0 (record_placement_failure x error st).0
unfolding record_placement_failure
record_placement_failure-Kept x error (s, w) =
    let (now, w') = x.exchange.clock w in
    holds_one (Kept s)
      (not (s.config.divergence_detector_enabled && on_error is_mixed_failure error)) (s, w)
      (add_failure now s, w') (record { tracked = refl; failed = refl }) (add_failure-Kept now s)

module _ {D W : Type 0} ⦃dec : Decimals D⦄ (x : Outside D W) where
  read_size-Kept :
      (client : Option (W → Answer (List (PositionEntry D)) × W)) (direction : OrderDirection)
      (st : RunState D W)
      → Kept st.0 (read_size client direction st).0
  read_size-Kept none direction (s, w) = record { tracked = refl; failed = refl }
  read_size-Kept (some get_positions) direction (s, w) =
      refreshed-Kept direction (sized_by direction (get_positions w).0) s

  refresh_if_dirty-Kept :
      (i : PlaceLimitIntent D) (now : ℕ) (st : RunState D W)
      → Kept st.0 (refresh_if_dirty x i now st).0
  unfolding refresh_if_dirty refresh_position_size_from_rest
  refresh_if_dirty-Kept i now (s, w) =
      let read = (x.exchange.clock w).1 in
      holds_one (Kept s) _ _ (s, w)
        (Kept-trans (record { tracked = refl; failed = refl })
          (read_size-Kept x.get_positions i.direction _))
        (record { tracked = refl; failed = refl })

  Good-Passes :
      (i : PlaceLimitIntent D) (now : ℕ) (limits : Limits D) (s : StrategyRunner D)
      (r : Bool × RunState D W)
      → Kept s r.1.0
      → (r.0 ≡ true → IsGood limits r.1.0 i)
      → Passes limits s r.1.0 (if r.0 then some (i, now) else none)
  Good-Passes i now limits s (true, st) k good = (k, good refl)
  Good-Passes i now limits s (false, st) k good = k

  good_after-Kept :
      (i : PlaceLimitIntent D) (sum : Option D) (st : RunState D W)
      → Kept st.0 (good_after x i sum st).1.0
  good_after-Kept i none (s, w) = record { tracked = refl; failed = refl }
  good_after-Kept i (some sum) (s, w) = elim (Bool-cases i.reduce_only) [
    | inl reduce ↦ rw reduce (record { tracked = refl; failed = refl })
    | inr opens ↦ elim (Bool-cases s.config.preflight_balance_check_enabled) [
      | inl checks ↦ rw (opens, checks) (record { tracked = refl; failed = refl })
      | inr free ↦ rw (opens, free) (record { tracked = refl; failed = refl })
    ]
  ]

  good_after-fits :
      (i : PlaceLimitIntent D) (sum : D) (st : RunState D W)
      → (good_after x i (some sum) st).0 ≡ true
      → i.reduce_only ≡ true
      → fits_position i sum (position_size i.direction (good_after x i (some sum) st).1.0) ≡ true
  good_after-fits i sum (s, w) good reduce = ground (arith, good, reduce)

  scanned-Passes :
      (i : PlaceLimitIntent D) (now : ℕ) (limits : Limits D) (st : RunState D W) (sum : Option D)
      → scan_orders i zero_dec (limits.long_orders ++ limits.short_orders) ≡ sum
      → Passes limits st.0
          (good_after x i sum st).1.0
          (if (good_after x i sum st).0 then some (i, now) else none)
  scanned-Passes i now limits st none scanned = good_after-Kept i none st
  scanned-Passes i now limits st (some sum) scanned =
      Good-Passes i now limits st.0 (good_after x i (some sum) st) (good_after-Kept i (some sum) st)
        (λ good. record { sum = sum; scanned = scanned; fits = good_after-fits i sum st good })

  Passes-before :
      (limits : Limits D) (s s' s'' : StrategyRunner D) (r : Option (PlaceLimitIntent D × ℕ))
      → Kept s s'
      → Passes limits s' s'' r
      → Passes limits s s'' r
  Passes-before limits s s' s'' none k p = Kept-trans k p
  Passes-before limits s s' s'' (some (i, now)) k p = (Kept-trans k p.0, p.1)

  pass_caps-Passes :
      (i : PlaceLimitIntent D) (now : ℕ) (limits : Limits D) (block : Option CapBlock)
      (st : RunState D W)
      → Passes limits st.0
          (pass_caps x i now limits block st).1.0
          (pass_caps x i now limits block st).0
  unfolding is_good_to_place emit_safety_cap_rejection
  pass_caps-Passes i now limits (some CapBlock.loss_breaker) st = record {
    tracked = refl;
    failed = refl;
  }
  pass_caps-Passes i now limits (some (CapBlock.capped reason)) (s, w) =
      let (now, w') = x.exchange.clock w in
      warned-Kept (is_throttled (s.safety_cap_warn_last reason) now) now reason (s, w')
  pass_caps-Passes i now limits none st =
      let fresh = refresh_if_dirty x i now st in
      Passes-before limits st.0 fresh.0 _ _ (refresh_if_dirty-Kept i now st)
        (scanned-Passes i now limits fresh _ refl)

  Passes-either :
      (limits : Limits D) (s : StrategyRunner D) (b : Bool)
      (u v : Option (PlaceLimitIntent D × ℕ) × RunState D W)
      → Passes limits s u.1.0 u.0
      → Passes limits s v.1.0 v.0
      → Passes limits s (if b then u else v).1.0 (if b then u else v).0
  Passes-either limits s true u v p q = p
  Passes-either limits s false u v p q = q

  -- The guard changes no tracked order and reports no failure, and what it admits is good to place.
  pub admit-Passes :
      (i : PlaceLimitIntent D) (limits : Limits D) (st : RunState D W)
      → Passes limits st.0 (admit x i limits st).1.0 (admit x i limits st).0
  unfolding admit
  admit-Passes i limits (s, w) =
      let sized = record i { qty = x.resolve_qty s i } in
      let now = x.exchange.clock w in
      let asked = is_blocked (sized.side, sized.price) now.0 s.truncate_breaker in
      let s' = record s { truncate_breaker = asked.1 } in
      let kept : Kept s s' = record { tracked = refl; failed = refl } in
      Passes-either limits s _ (none, (s, w)) _ (record { tracked = refl; failed = refl })
        (Passes-either limits s asked.0 (none, (s', now.1)) _ kept
          (Passes-before limits s s' _ _ kept (
            pass_caps-Passes sized now.0 limits (evaluate_safety_caps s' sized limits)
              (s', now.1))))

module _ {D : Type 0} ⦃dec : Decimals D⦄ where
  pub Passes-Kept :
      (limits : Limits D) (s s' : StrategyRunner D) (r : Option (PlaceLimitIntent D × ℕ))
      → Passes limits s s' r
      → Kept s s'
  Passes-Kept limits s s' none p = p
  Passes-Kept limits s s' (some (i, now)) p = p.0
