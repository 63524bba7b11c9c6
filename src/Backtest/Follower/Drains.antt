-- ===== src/Backtest/Follower/Drains.antt =====
-- What a run of drains delivers: apps/backtest/src/backtest/fill_simulator.py.
use grid_bot_validation.Prelude.{
  ℕ, zero, suc, ◌+◌, ◌-◌, ◌≤◌, ◌<◌, ltb, leb, ◌≡◌, refl, sym, ap, subst, ◌∙◌, true, false, some,
  List, [], ◌∷◌, ◌++◌, drop, if◌then◌else◌, arith, Bool-cases, inl, inr,
}
use grid_bot_validation.Text.{Text}
use grid_bot_validation.Outcome.{Action, ok, ◌>>=◌, pure, bind_ok}
use grid_bot_validation.Backtest.Follower.{
  RecordedExecution, EventFollower, follower, drain_from, drain, is_before,
}

pub last_of : ℕ → List ℕ → ℕ
last_of t [] = t
last_of t (u ∷ us) = last_of u us

unfoldable pub Ascending : ℕ → List ℕ → Type 0
Ascending t [] = Unit {0}
Ascending t (u ∷ us) = (t ≤ u) × Ascending u us

last_of-after : (t : ℕ) (us : List ℕ) → Ascending t us → t ≤ last_of t us
unfolding last_of Ascending
last_of-after t [] h = omega arith
last_of-after t (u ∷ us) (a, h) = omega (arith, last_of-after u us h)

module _ {D : Type 0} where
  -- The stream is drained tick by tick, each window beginning where the one before ended.
  unfoldable pub drains :
      (prev_ts : ℕ) → List ℕ → Action (EventFollower D) (List (RecordedExecution D))
  drains prev_ts [] = pure []
  drains prev_ts (tick_ts ∷ ticks) =
      drain prev_ts tick_ts >>= λ drained. drains tick_ts ticks >>= λ later. pure (drained ++ later)

  -- Every execution is later than a time.
  pub AllAfter : ℕ → List (RecordedExecution D) → Type 0
  AllAfter t [] = Unit {0}
  AllAfter t (ex ∷ executions) = (t < ex.exchange_ts) × AllAfter t executions

  -- Every execution is at a time or later.
  unfoldable pub AllFrom : ℕ → List (RecordedExecution D) → Type 0
  AllFrom t [] = Unit {0}
  AllFrom t (ex ∷ executions) = (t ≤ ex.exchange_ts) × AllFrom t executions

  -- In the order of the time stamps.
  unfoldable pub InOrder : List (RecordedExecution D) → Type 0
  InOrder [] = Unit {0}
  InOrder (ex ∷ executions) = AllFrom ex.exchange_ts executions × InOrder executions

  -- The executions up to a time.
  pub up_to : ℕ → List (RecordedExecution D) → List (RecordedExecution D)
  up_to t [] = []
  up_to t (ex ∷ executions) =
      let rest = up_to t executions in if leb ex.exchange_ts t then ex ∷ rest else rest

  AllAfter-of_from :
      (t u : ℕ) (xs : List (RecordedExecution D)) → t < u → AllFrom u xs → AllAfter t xs
  unfolding AllAfter AllFrom
  AllAfter-of_from t u [] h all = tt
  AllAfter-of_from t u (x ∷ xs) h (a, all) = (omega arith, AllAfter-of_from t u xs h all)

  up_to_none : (t : ℕ) (xs : List (RecordedExecution D)) → AllAfter t xs → up_to t xs ≡ []
  unfolding up_to AllAfter
  up_to_none t [] all = refl
  up_to_none t (x ∷ xs) (a, all) = ground (arith, up_to_none t xs all)

  up_to-append :
      (t : ℕ) (xs ys : List (RecordedExecution D)) → up_to t (xs ++ ys) ≡ up_to t xs ++ up_to t ys
  unfolding up_to
  up_to-append t [] ys = refl
  up_to-append t (x ∷ xs) ys = ground (arith, up_to-append t xs ys)

  up_to-up_to :
      (t u : ℕ) (xs : List (RecordedExecution D)) → t ≤ u → up_to u (up_to t xs) ≡ up_to t xs
  unfolding up_to
  up_to-up_to t u [] h = refl
  up_to-up_to t u (x ∷ xs) h = ground (arith, up_to-up_to t u xs h)

  -- What one drain of the tail does.
  record Drained (tick_ts : ℕ) (xs : List (RecordedExecution D))
      (out : List (RecordedExecution D) × ℕ) : Type 0 where
    taken : out.0 ≡ up_to tick_ts xs
    split : up_to tick_ts xs ++ drop out.1 xs ≡ xs
    later : AllAfter tick_ts (drop out.1 xs)
    ordered : InOrder (drop out.1 xs)

  drain_from-Drained :
      (prev_ts tick_ts : ℕ) (xs : List (RecordedExecution D))
      → AllAfter prev_ts xs
      → InOrder xs
      → Drained tick_ts xs (drain_from prev_ts tick_ts xs)
  unfolding drain_from AllAfter InOrder up_to
  drain_from-Drained prev_ts tick_ts [] all sorted = record {
    taken = refl;
    split = refl;
    later = tt;
    ordered = tt;
  }
  drain_from-Drained prev_ts tick_ts (x ∷ xs) (a, all) (first, sorted) =
      let rest = drain_from-Drained prev_ts tick_ts xs all sorted in
      elim (Bool-cases (ltb tick_ts x.exchange_ts)) [
        | inl late ↦
            let after = AllAfter-of_from tick_ts x.exchange_ts xs (ground arith) first in
            let all' : AllAfter tick_ts (x ∷ xs) = (ground arith, after) in
            let nothing = up_to_none tick_ts (x ∷ xs) all' in
            rw late (record {
              taken = sym nothing;
              split = ap (λ ys. ys ++ x ∷ xs) nothing;
              later = all';
              ordered = (first, sorted);
            })
        | inr due ↦
            let is_due : leb x.exchange_ts tick_ts ≡ true = ground arith in
            let new : leb x.exchange_ts prev_ts ≡ false = ground arith in
            let head : up_to tick_ts (x ∷ xs) ≡ x ∷ up_to tick_ts xs = rw is_due refl in
            rw (due, new)
              (record {
                taken = ap (◌∷◌ x) rest.taken ∙ sym head;
                split =
                    ap (λ ys. ys ++ drop (drain_from prev_ts tick_ts xs).1 xs) head
                    ∙ ap (◌∷◌ x) rest.split;
                later = rest.later;
                ordered = rest.ordered;
              })
      ]

  drop_nil : (n : ℕ) → drop {A = RecordedExecution D} n [] ≡ []
  drop_nil zero = refl
  drop_nil (suc n) = refl

  drop-drop : (m n : ℕ) (xs : List (RecordedExecution D)) → drop (m + n) xs ≡ drop n (drop m xs)
  drop-drop zero n xs = let same : 0 + n ≡ n = omega arith in ap (λ k. drop k xs) same
  drop-drop (suc m) n [] =
      let same : suc m + n ≡ suc (m + n) = omega arith in
      ap (λ k. drop k []) same ∙ sym (drop_nil n)
  drop-drop (suc m) n (x ∷ xs) =
      let same : suc m + n ≡ suc (m + n) = omega arith in
      ap (λ k. drop k (x ∷ xs)) same ∙ drop-drop m n xs

  -- Between two drains: the last tick was no later than `prev_ts`, and what is left is in order and
  -- later.
  record Ready (prev_ts : ℕ) (f : EventFollower D) : Type 0 where
    last_tick : (t : ℕ) → prev_ts ≤ t → is_before t f.last_tick_ts ≡ false
    later : AllAfter prev_ts (drop f.cursor f.executions)
    ordered : InOrder (drop f.cursor f.executions)

  abbrev rest : EventFollower D → List (RecordedExecution D)
  rest f = drop f.cursor f.executions

  abbrev drained_state : ℕ → ℕ → EventFollower D → EventFollower D
  drained_state prev_ts tick_ts f = record f {
    last_tick_ts = some tick_ts;
    cursor = f.cursor + (drain_from prev_ts tick_ts (rest f)).1;
  }

  drain-result :
      (prev_ts tick_ts : ℕ) (f : EventFollower D)
      → is_before tick_ts f.last_tick_ts ≡ false
      → drain prev_ts tick_ts f
        ≡ (ok (drain_from prev_ts tick_ts (rest f)).0, drained_state prev_ts tick_ts f)
  unfolding drain
  drain-result prev_ts tick_ts f h = rw h refl

  drained-Ready :
      (prev_ts tick_ts : ℕ) (f : EventFollower D)
      → Ready prev_ts f
      → Ready tick_ts (drained_state prev_ts tick_ts f)
  drained-Ready prev_ts tick_ts f ready =
      let out = drain_from prev_ts tick_ts (rest f) in
      let done = drain_from-Drained prev_ts tick_ts (rest f) ready.later ready.ordered in
      let moved = sym (drop-drop f.cursor out.1 f.executions) in
      record {
        last_tick = λ t h. ground arith;
        later = subst (AllAfter tick_ts) moved done.later;
        ordered = subst InOrder moved done.ordered;
      }

  drains-from :
      (prev_ts : ℕ) (ticks : List ℕ) (f : EventFollower D)
      → Ascending prev_ts ticks
      → Ready prev_ts f
      → (drains prev_ts ticks f).0 ≡ ok (up_to (last_of prev_ts ticks) (rest f))
  unfolding drains last_of Ascending
  drains-from prev_ts [] f h ready = ap ok (sym (up_to_none prev_ts (rest f) ready.later))
  drains-from prev_ts (tick_ts ∷ ticks) f (step, h) ready =
      let g = drained_state prev_ts tick_ts f in
      let done = drain_from-Drained prev_ts tick_ts (rest f) ready.later ready.ordered in
      let later = drains-from tick_ts ticks g h (drained-Ready prev_ts tick_ts f ready) in
      let first = drain-result prev_ts tick_ts f (ready.last_tick tick_ts step) in
      let taken = (drain_from prev_ts tick_ts (rest f)).0 in
      let more : List (RecordedExecution D)
          → Action (EventFollower D) (List (RecordedExecution D)) =
        λ drained. drains tick_ts ticks >>= λ later. pure (drained ++ later) in
      let last = last_of tick_ts ticks in
      let n = (drain_from prev_ts tick_ts (rest f)).1 in
      let whole : taken ++ up_to last (rest g) ≡ up_to last (rest f) =
        ap (λ ys. ys ++ up_to last (rest g))
          (done.taken ∙ sym (up_to-up_to tick_ts last (rest f) (last_of-after tick_ts ticks h)))
        ∙ ap (λ ys. up_to last (up_to tick_ts (rest f)) ++ up_to last ys)
            (drop-drop f.cursor n f.executions)
        ∙ sym (up_to-append last (up_to tick_ts (rest f)) (drop n (rest f)))
        ∙ ap (up_to last) done.split in
      ap (λ x. x.0) (bind_ok (drain prev_ts tick_ts) more f (ap (λ x. x.0) first))
      ∙ ap (λ x. (more taken x.1).0) first
      ∙ ap (λ x. x.0) (bind_ok (drains tick_ts ticks) (λ later. pure (taken ++ later)) g later)
      ∙ ap ok whole

  -- A fresh follower of a stream in the order of time stamps that begins at `start_ts` or later,
  -- drained at ticks that do not go back in time and begin no earlier than a microsecond before
  -- `start_ts`: no drain raises, and together they deliver the executions up to the last tick, each
  -- once and in the stream's order.
  pub drains-up_to :
      (executions : List (RecordedExecution D)) (symbol : Text) (start_ts : ℕ) (ticks : List ℕ)
      → 0 < start_ts
      → InOrder executions
      → AllFrom start_ts executions
      → Ascending (start_ts - 1) ticks
      → let f = follower executions symbol start_ts in
        (drains f.initial_prev_ts ticks f).0 ≡ ok (up_to (last_of (start_ts - 1) ticks) executions)
  drains-up_to executions symbol start_ts ticks positive sorted from ascending =
      let f = follower executions symbol start_ts in
      drains-from f.initial_prev_ts ticks f ascending (record {
        last_tick = λ t h. refl;
        later = AllAfter-of_from (start_ts - 1) start_ts executions (omega arith) from;
        ordered = sorted;
      })
