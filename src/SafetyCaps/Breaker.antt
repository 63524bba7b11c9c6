-- ===== src/SafetyCaps/Breaker.antt =====
-- The session-loss breaker over a sequence of position updates: when it fires, and for how long it
-- stays latched.
use grid_bot_validation.Prelude.{
  ℕ, ◌+◌, ◌≤◌, ◌<◌, ◌≡◌, refl, Bool, true, false, ◌||◌, some, List, [], ◌∷◌, arith, if◌then◌else◌,
  ◌⊎◌, inl, inr, Bool-cases, ◌&&◌, ltb,
}
use grid_bot_validation.Prelude.Int.{ℤ, pos, ◌-ℤ◌, leb_ℤ}
use grid_bot_validation.SafetyCaps.{SafetyCaps, check_loss_breaker, seeded}

-- One position update: the session's realized profit and the UTC date.
pub record Update : Type 0 where
  pub pnl : ℤ
  pub today : ℕ

-- How often the breaker fires, and the caps after the updates.
pub fire_count : SafetyCaps → List Update → ℕ
fire_count s [] = 0
fire_count s (u ∷ us) =
    let (fired, s') = check_loss_breaker s u.pnl u.today in
    (if fired then 1 else 0) + fire_count s' us

pub after_updates : SafetyCaps → List Update → SafetyCaps
after_updates s [] = s
after_updates s (u ∷ us) = after_updates (check_loss_breaker s u.pnl u.today).1 us

-- Some update shows a loss of at least the limit.
abbrev pub any_at_limit : ℤ → List Update → Bool
any_at_limit cap [] = false
any_at_limit cap (u ∷ us) = leb_ℤ u.pnl (pos 0 -ℤ cap) || any_at_limit cap us

-- Every update falls on `day`.
abbrev pub On : ℕ → List Update → Type 0
On day [] = Unit {0}
On day (u ∷ us) = (u.today ≡ day) × On day us

-- The breaker is set, and its latch is not cleared by an update of `day`.
record IsHeld (cap : ℤ) (day : ℕ) (s : SafetyCaps) : Type 0 where
  on : s.enabled ≡ true
  limit : s.session_loss_limit ≡ some cap
  date :
      (s.session_loss_auto_reset_utc_midnight ≡ false)
      ⊎ ((d : ℕ) × (s.loss_reset_utc_date ≡ some d) × (day ≤ d))

module _ (cap : ℤ) (day : ℕ) (s : SafetyCaps) (u : Update) where
  held-fires :
      IsHeld cap day s
      → u.today ≡ day
      → (check_loss_breaker s u.pnl u.today).0
        ≡ (if s.loss_tripped then false else leb_ℤ u.pnl (pos 0 -ℤ cap))
  unfolding check_loss_breaker
  held-fires h e = ground (arith, h.on, h.limit, h.date)

  held-latches :
      IsHeld cap day s
      → u.today ≡ day
      → (check_loss_breaker s u.pnl u.today).1.loss_tripped
        ≡ (s.loss_tripped || leb_ℤ u.pnl (pos 0 -ℤ cap))
  unfolding check_loss_breaker
  held-latches h e = ground (arith, h.on, h.limit, h.date)

  check_loss_breaker-IsHeld :
      IsHeld cap day s → u.today ≡ day → IsHeld cap day (check_loss_breaker s u.pnl u.today).1
  unfolding check_loss_breaker
  check_loss_breaker-IsHeld h e = elim h.date [
    | inl never ↦ record {
      on = ground (arith, h.on, h.limit);
      limit = ground (arith, h.on, h.limit);
      date = inl (ground (arith, h.on, h.limit));
    }
    | inr (d, set_to, later) ↦ record {
      on = ground (arith, h.on, h.limit);
      limit = ground (arith, h.on, h.limit);
      date = inr (d, ground (arith, h.on, h.limit), later);
    }
  ]

-- The date that an update leaves behind.
abbrev date_after : SafetyCaps → ℕ → ℕ
date_after s day =
    let date = seeded s.loss_reset_utc_date day in
    if s.session_loss_auto_reset_utc_midnight && ltb date day then day else date

module _ (cap : ℤ) (day : ℕ) (s : SafetyCaps) (pnl : ℤ) (on : s.enabled ≡ true)
    (limit : s.session_loss_limit ≡ some cap) where
  first-date : (check_loss_breaker s pnl day).1.loss_reset_utc_date ≡ some (date_after s day)
  unfolding check_loss_breaker
  first-date = ground (arith, on, limit)

  -- A first update settles the date, whatever it was.
  first-IsHeld : IsHeld cap day (check_loss_breaker s pnl day).1
  unfolding check_loss_breaker
  first-IsHeld = record {
    on = ground (arith, on, limit);
    limit = ground (arith, on, limit);
    date = elim (Bool-cases s.session_loss_auto_reset_utc_midnight) [
      | inl auto ↦ inr (date_after s day, first-date, ground arith)
      | inr never ↦ inl (ground (arith, on, limit))
    ];
  }

  -- An unlatched breaker fires exactly at the limit, whatever the date.
  first_fires :
      s.loss_tripped ≡ false
      → ((check_loss_breaker s pnl day).0 ≡ leb_ℤ pnl (pos 0 -ℤ cap))
        × ((check_loss_breaker s pnl day).1.loss_tripped ≡ leb_ℤ pnl (pos 0 -ℤ cap))
  unfolding check_loss_breaker
  first_fires free = ground (arith, on, limit)

held_run :
    (cap : ℤ) (day : ℕ) (s : SafetyCaps) (us : List Update)
    → IsHeld cap day s
    → On day us
    → (fire_count s us ≡ (if s.loss_tripped then 0 else if any_at_limit cap us then 1 else 0))
      × ((after_updates s us).loss_tripped ≡ (s.loss_tripped || any_at_limit cap us))
unfolding fire_count after_updates
held_run cap day s [] h o = ground arith
held_run cap day s (u ∷ us) h o = ground (
  arith,
  held-fires cap day s u h o.0,
  held-latches cap day s u h o.0,
  held_run cap day (check_loss_breaker s u.pnl u.today).1 us
      (check_loss_breaker-IsHeld cap day s u h o.0) o.1,
)

never-kept :
    (s : SafetyCaps) (u : Update)
    → s.session_loss_auto_reset_utc_midnight ≡ false
    → (check_loss_breaker s u.pnl u.today).1.session_loss_auto_reset_utc_midnight ≡ false
unfolding check_loss_breaker
never-kept s u never = ground arith

-- On one UTC day an unlatched breaker with its limit set fires exactly once if some update of the
-- day shows a loss at the limit, and not at all otherwise; and the latch is set from then on.
pub fire_count-day :
    (cap : ℤ) (day : ℕ) (s : SafetyCaps) (us : List Update)
    → s.enabled ≡ true
    → s.session_loss_limit ≡ some cap
    → s.loss_tripped ≡ false
    → On day us
    → (fire_count s us ≡ (if any_at_limit cap us then 1 else 0))
      × ((after_updates s us).loss_tripped ≡ any_at_limit cap us)
unfolding fire_count after_updates
fire_count-day cap day s [] on limit free o = ground arith
fire_count-day cap day s (u ∷ us) on limit free o = ground (
  arith,
  rw (← o.0) at (first_fires cap day s u.pnl on limit free),
  held_run cap day (check_loss_breaker s u.pnl u.today).1 us
      (rw o.0 (first-IsHeld cap day s u.pnl on limit)),
)

-- Without the midnight reset the breaker fires at most once in its life, on the first update that
-- shows a loss at the limit, whatever the dates, and stays latched.
pub fire_count-never_reset :
    (cap : ℤ) (s : SafetyCaps) (us : List Update)
    → s.enabled ≡ true
    → s.session_loss_limit ≡ some cap
    → s.session_loss_auto_reset_utc_midnight ≡ false
    → (fire_count s us ≡ (if s.loss_tripped then 0 else if any_at_limit cap us then 1 else 0))
      × ((after_updates s us).loss_tripped ≡ (s.loss_tripped || any_at_limit cap us))
unfolding fire_count after_updates
fire_count-never_reset cap s [] on limit never = ground arith
fire_count-never_reset cap s (u ∷ us) on limit never =
    let h : IsHeld cap u.today s = record { on = on; limit = limit; date = inl never } in
    ground (
      arith,
      held-fires cap u.today s u h refl,
      held-latches cap u.today s u h refl,
      never-kept s u never,
      check_loss_breaker-IsHeld cap u.today s u h refl,
      fire_count-never_reset cap (check_loss_breaker s u.pnl u.today).1 us,
    )

-- With the midnight reset, an update of a later day than the latch's is judged afresh: it fires
-- exactly if its loss is at the limit, also when the breaker was latched the day before.
pub check_loss_breaker-rearms :
    (cap pnl : ℤ) (day today : ℕ) (s : SafetyCaps)
    → s.enabled ≡ true
    → s.session_loss_limit ≡ some cap
    → s.session_loss_auto_reset_utc_midnight ≡ true
    → s.loss_reset_utc_date ≡ some day
    → day < today
    → let (fired, s') = check_loss_breaker s pnl today in
      (fired ≡ leb_ℤ pnl (pos 0 -ℤ cap)) × (s'.loss_tripped ≡ fired)
unfolding check_loss_breaker
check_loss_breaker-rearms cap pnl day today s on limit auto date later = ground arith
