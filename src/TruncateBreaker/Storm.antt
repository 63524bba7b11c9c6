-- ===== src/TruncateBreaker/Storm.antt =====
-- How many refused placements get through: apps/gridbot/src/gridbot/truncate_breaker.py and the two
-- calls of it in _execute_place_intent of apps/gridbot/src/gridbot/runner.py.
use grid_bot_validation.Prelude.{
  ℕ, ◌+◌, ◌≤◌, ◌<◌, ltb, leb, ◌≡◌, inl, inr, Bool, true, false, ◌&&◌, Option, none, some, List, [],
  ◌∷◌, ◌++◌, length, if◌then◌else◌, arith, Bool-cases,
}
use grid_bot_validation.Decimal.{Decimals}
use grid_bot_validation.TruncateBreaker.{
  ScopeKey, BreakerConfig, TruncateBreaker, evict_old, same_key, is_blocked, record_110017,
}
use grid_bot_validation.TruncateBreaker.Counts.{
  one_inside, none_inside, count_from, count_between, count_from-add, count_between-add,
  count_between_le, count_from_le, count_from-evict_old,
}

module _ {D : Type 0} ⦃dec : Decimals D⦄ where
  -- A placement that the exchange would refuse: whether it is sent, and the breaker after that.
  unfoldable pub attempt : ScopeKey D → (now : ℕ) → TruncateBreaker D → Bool × TruncateBreaker D
  attempt key now b =
      let (blocked, b') = is_blocked key now b in
      let (tripped, b'') = record_110017 key now b' in if blocked then (false, b') else (true, b'')

  -- The times at which placements at `key` are sent, in a storm of attempts at any keys.
  unfoldable pub sent : ScopeKey D → List (ScopeKey D × ℕ) → TruncateBreaker D → List ℕ
  sent key [] b = []
  sent key (e ∷ es) b =
      let (went, b') = attempt e.0 e.1 b in
      let later = sent key es b' in if went && same_key e.0 key then e.1 ∷ later else later

  -- The clock does not go back.
  unfoldable pub InTime : ℕ → List (ScopeKey D × ℕ) → Type 0
  InTime now [] = Unit {0}
  InTime now (e ∷ es) = (now ≤ e.1) × InTime e.1 es

-- A bound on every span of length `span`.
pub record Bounded (cap span now : ℕ) (log : List ℕ) : Type 0 where
  pub past : (a : ℕ) → now < a → count_from a log ≡ 0
  pub few : (a : ℕ) → count_between a (a + span) log ≤ cap

-- Not tripped: the queue is short and has all that was sent lately.
pub record Open (cap span now : ℕ) (log events : List ℕ) : Type 0 where
  pub short : length events < cap
  pub recent : (a : ℕ) → now < a + span → count_from a log ≤ count_from a events

-- Tripped: the last sending was a cooldown before the end.
abbrev pub Tripped : (cooldown until : ℕ) → List ℕ → Type 0
Tripped cooldown until log = (a : ℕ) → until < a + cooldown → count_from a log ≡ 0

abbrev pub StateOk : BreakerConfig → (span now : ℕ) → List ℕ → List ℕ → Option ℕ → Type 0
StateOk c span now log events none = Open c.max_consecutive span now log events
StateOk c span now log events (some until) = Tripped c.cooldown until log

-- What counting an event makes of the entries of its key.
abbrev pub after_event : BreakerConfig → (now : ℕ) → List ℕ → List ℕ × Option ℕ
after_event c now events =
    let dq = evict_old c.window now (events ++ now ∷ []) in
    (dq, if leb c.max_consecutive (length dq) then some (now + c.cooldown) else none)

pub Bounded-send :
    (c : BreakerConfig) (span now t : ℕ) (log events : List ℕ)
    → now ≤ t
    → Bounded c.max_consecutive span now log
    → Open c.max_consecutive span now log events
    → Bounded c.max_consecutive span t (log ++ t ∷ [])
unfolding count_from count_between
Bounded-send c span now t log events later b o = record {
  past = λ a h. ground (arith, b.past a (omega arith), count_from-add a t log);
  few = λ a. elim (Bool-cases (leb a t && ltb t (a + span))) [
    | inl inside ↦
        let recent = o.recent a (ground arith) in
        omega (
          arith,
          count_between-add a (a + span) t log,
          one_inside a (a + span) t,
          count_between_le a (a + span) log,
          recent,
          count_from_le a events,
          o.short,
        )
    | inr outside ↦
        omega
          (arith, b.few a, count_between-add a (a + span) t log, none_inside a (a + span) t outside)
  ];
}

pub StateOk-send :
    (c : BreakerConfig) (span now t : ℕ) (log events : List ℕ)
    → now ≤ t
    → span ≤ c.window
    → Bounded c.max_consecutive span now log
    → Open c.max_consecutive span now log events
    → let (dq, until) = after_event c t events in StateOk c span t (log ++ t ∷ []) dq until
unfolding count_from
StateOk-send c span now t log events later narrow b o =
    let dq = evict_old c.window t (events ++ t ∷ []) in
    elim (Bool-cases (leb c.max_consecutive (length dq))) [
      | inl many ↦
          rw many (λ a h. (Bounded-send c span now t log events later b o).past a (omega arith))
      | inr few ↦ rw few (record {
        short = ground arith;
        recent = λ a h. omega (
          arith,
          o.recent a (omega arith),
          count_from-add a t log,
          count_from-add a t events,
          count_from-evict_old a c.window t (events ++ t ∷ []) (omega arith),
        );
      })
    ]

-- The cooldown is over: nothing that was sent is recent.
pub reopen :
    (c : BreakerConfig) (span now t until : ℕ) (log : List ℕ)
    → span ≤ c.cooldown
    → 0 < c.max_consecutive
    → until ≤ t
    → Tripped c.cooldown until log
    → Open c.max_consecutive span t log []
reopen c span now t until log narrow positive over tripped = record {
  short = positive;
  recent = λ a h. omega (arith, tripped a (omega arith));
}

pub Bounded-later :
    (cap span now t : ℕ) (log : List ℕ)
    → now ≤ t
    → Bounded cap span now log
    → Bounded cap span t log
Bounded-later cap span now t log h b = record { past = λ a k. b.past a (omega arith); few = b.few }

pub Open-later :
    (cap span now t : ℕ) (log events : List ℕ)
    → now ≤ t
    → Open cap span now log events
    → Open cap span t log events
Open-later cap span now t log events h o = record {
  short = o.short;
  recent = λ a k. o.recent a (omega arith);
}
