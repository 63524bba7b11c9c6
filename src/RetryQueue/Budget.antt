-- ===== src/RetryQueue/Budget.antt =====
-- How often the queue calls the executor: apps/gridbot/src/gridbot/retry_queue.py.
use grid_bot_validation.Prelude.{
  ℕ, suc, ◌+◌, ◌-◌, ◌≤◌, ltb, leb, ◌≡◌, refl, inl, inr, List, [], ◌∷◌, ◌++◌, length, arith,
  Bool-cases, map,
}
use grid_bot_validation.RetryQueue.{
  RetryResult, Owner, RetryItem, RetryConfig, Fate, put_off, after_retry, process_item,
  process_items, process_due, add, remove, clear, cancel_for_prefix, IntentView,
}
use grid_bot_validation.Text.{Text}

module _ {A W : Type 0} where
  -- The same owner, with a count of the calls of its executor.
  abbrev pub counted : Owner A W → Owner A (W × ℕ)
  counted o = record {
    now = λ w. let (t, w') = o.now w.0 in (t, (w', w.1));
    is_paused = λ w. o.is_paused w.0;
    execute = λ a w. let (r, w') = o.execute a w.0 in (r, (w', suc w.1));
  }

-- What happens to a queue: a poll, the other operations, and the rest of the world going on somehow.
pub data Happening (A W : Type 0) : Type 0 where
  poll clears : Happening A W
  adds : A → RetryResult → Happening A W
  removes : A → Happening A W
  cancels : Text → Happening A W
  goes_on : (W → W) → Happening A W

module _ {A W : Type 0} where
  abbrev pub beside : Happening A W → Happening A (W × ℕ)
  beside Happening.poll = Happening.poll
  beside Happening.clears = Happening.clears
  beside (Happening.adds intent error) = Happening.adds intent error
  beside (Happening.removes intent) = Happening.removes intent
  beside (Happening.cancels prefix) = Happening.cancels prefix
  beside (Happening.goes_on f) = Happening.goes_on λ w. (f w.0, w.1)

  -- The retries that an added item may have, after the attempt that failed.
  abbrev pub allowed_by : RetryConfig → Happening A W → ℕ
  allowed_by c (Happening.adds intent error) = c.max_attempts - 1
  allowed_by c h = 0

  pub allowed : RetryConfig → List (Happening A W) → ℕ
  allowed c [] = 0
  allowed c (h ∷ hs) = allowed_by c h + allowed c hs

module _ {A : Type 0} where
  -- The attempts that an item has left, and those of a queue.
  abbrev pub attempts_left : RetryConfig → RetryItem A → ℕ
  attempts_left c item = c.max_attempts - item.attempt_count

  pub budget : RetryConfig → List (RetryItem A) → ℕ
  budget c [] = 0
  budget c (item ∷ items) = attempts_left c item + budget c items

  abbrev pub left_after : RetryConfig → RetryItem A → Fate A → ℕ
  left_after c item (Fate.stays item') = attempts_left c item'
  left_after c item Fate.goes = 0
  left_after c item Fate.breaks = attempts_left c item

module _ {A W : Type 0} (v : IntentView A) where
  unfoldable pub happen :
      Owner A W → RetryConfig → Happening A W → List (RetryItem A) → W → List (RetryItem A) × W
  happen o c Happening.poll queue w = let (done, w') = process_due o c queue w in (done.0, w')
  happen o c Happening.clears queue w = ((clear queue).1, w)
  happen o c (Happening.adds intent error) queue w = add o c intent error queue w
  happen o c (Happening.removes intent) queue w = ((remove v intent queue).1, w)
  happen o c (Happening.cancels prefix) queue w = ((cancel_for_prefix v prefix queue).1, w)
  happen o c (Happening.goes_on f) queue w = (queue, f w)

  unfoldable pub history :
      Owner A W
      → RetryConfig
      → List (Happening A W)
      → List (RetryItem A)
      → W
      → List (RetryItem A) × W
  history o c [] queue w = (queue, w)
  history o c (h ∷ hs) queue w = let (queue', w') = happen o c h queue w in history o c hs queue' w'

module _ {A W : Type 0} where
  after_retry-budget :
      (o : Owner A W) (c : RetryConfig) (item : RetryItem A) (r : RetryResult) (w : W × ℕ)
      → let (fate, w') = after_retry (counted o) c item r w in
        w'.1 + left_after c item fate ≤ w.1 + (c.max_attempts - (item.attempt_count + 1))
  unfolding after_retry put_off
  after_retry-budget o c item RetryResult.success w = omega arith
  after_retry-budget o c item RetryResult.safety_cap w = omega arith
  after_retry-budget o c item RetryResult.truncate_breaker_blocked w = omega arith
  after_retry-budget o c item RetryResult.duplicate_order_blocked w = omega arith
  after_retry-budget o c item RetryResult.same_order_blocked w = omega arith
  after_retry-budget o c item RetryResult.other_error w = omega arith
  after_retry-budget o c item RetryResult.raised w = omega arith

  process_item-budget :
      (o : Owner A W) (c : RetryConfig) (item : RetryItem A) (w : W × ℕ)
      → let (fate, w') = process_item (counted o) c item w in
        w'.1 + left_after c item fate ≤ w.1 + attempts_left c item
  unfolding process_item
  process_item-budget o c item w =
      let (t, first) = o.now w.0 in
      let (t', second) = o.now first in
      let (r, third) = o.execute item.intent second in
      let due = ltb t item.next_retry_ts in
      elim (Bool-cases due) [
        | inl early ↦ rw early (omega arith)
        | inr now ↦ elim (Bool-cases (leb c.max_attempts item.attempt_count)) [
          | inl spent ↦ rw (now, spent) (omega arith)
          | inr more ↦ elim (Bool-cases (leb (item.first_attempt_ts + c.max_elapsed) t')) [
            | inl late ↦ rw (now, more, late) (omega arith)
            | inr young ↦ elim (Bool-cases (o.is_paused second)) [
              | inl paused ↦ rw (now, more, young, paused) (omega arith)
              | inr running ↦
                  rw (now, more, young, running)
                    (ground (arith, after_retry-budget o c item r (third, suc w.1)))
            ]
          ]
        ]
      ]

  process_items-budget :
      (o : Owner A W) (c : RetryConfig) (items : List (RetryItem A)) (w : W × ℕ)
      → let ((kept, n), w') = process_items (counted o) c items w in
        w'.1 + budget c kept ≤ w.1 + budget c items
  unfolding process_items budget
  process_items-budget o c [] w = omega arith
  process_items-budget o c (item ∷ items) w = ground (
    arith,
    process_item-budget o c item w,
    process_items-budget o c items (process_item (counted o) c item w).1,
  )

  process_items-length :
      (o : Owner A W) (c : RetryConfig) (items : List (RetryItem A)) (w : W)
      → let (kept, n) = (process_items o c items w).0 in length kept + n ≡ length items
  unfolding process_items
  process_items-length o c [] w = refl
  process_items-length o c (item ∷ items) w =
      ground (arith, process_items-length o c items (process_item o c item w).1)

  -- A poll takes no item out of the queue that it does not count: the items that stay and those
  -- that it says it processed are as many as there were.
  pub process_due-length :
      (o : Owner A W) (c : RetryConfig) (queue : List (RetryItem A)) (w : W)
      → let (kept, n) = (process_due o c queue w).0 in length kept + n ≡ length queue
  unfolding process_due
  process_due-length o c queue w = ground (arith, process_items-length o c queue w)

  process_due-budget :
      (o : Owner A W) (c : RetryConfig) (queue : List (RetryItem A)) (w : W × ℕ)
      → let (done, w') = process_due (counted o) c queue w in
        w'.1 + budget c done.0 ≤ w.1 + budget c queue
  unfolding process_due
  process_due-budget o c queue w = ground (arith, process_items-budget o c queue w)

module _ {A : Type 0} where
  budget-append :
      (c : RetryConfig) (items : List (RetryItem A)) (item : RetryItem A)
      → budget c (items ++ item ∷ []) ≡ budget c items + attempts_left c item
  unfolding budget
  budget-append c [] item = omega arith
  budget-append c (i ∷ items) item = omega (arith, budget-append c items item)

module _ {A : Type 0} (v : IntentView A) where
  remove-budget :
      (c : RetryConfig) (intent : A) (items : List (RetryItem A))
      → budget c (remove v intent items).1 ≤ budget c items
  unfolding remove budget
  remove-budget c intent [] = omega arith
  remove-budget c intent (item ∷ items) = ground (arith, remove-budget c intent items)

  cancel_for_prefix-budget :
      (c : RetryConfig) (prefix : Text) (items : List (RetryItem A))
      → budget c (cancel_for_prefix v prefix items).1 ≤ budget c items
  unfolding cancel_for_prefix budget
  cancel_for_prefix-budget c prefix [] = omega arith
  cancel_for_prefix-budget c prefix (item ∷ items) =
      ground (arith, cancel_for_prefix-budget c prefix items)

module _ {A W : Type 0} (v : IntentView A) where
  happen-budget :
      (o : Owner A W) (c : RetryConfig) (h : Happening A W) (queue : List (RetryItem A)) (w : W × ℕ)
      → let (queue', w') = happen v (counted o) c (beside h) queue w in
        w'.1 + budget c queue' ≤ (w.1 + budget c queue) + allowed_by c h
  unfolding happen add budget
  happen-budget o c Happening.poll queue w = omega (arith, process_due-budget o c queue w)
  happen-budget o c Happening.clears queue w = omega arith
  happen-budget o c (Happening.adds intent error) queue w =
      let (next, w') = o.now w.0 in
      omega (
        arith,
        budget-append c queue (record {
          intent = intent;
          attempt_count = 1;
          first_attempt_ts = (o.now w').0;
          next_retry_ts = next + c.initial_backoff;
          last_error = error;
        }),
      )
  happen-budget o c (Happening.removes intent) queue w =
      omega (arith, remove-budget v c intent queue)
  happen-budget o c (Happening.cancels prefix) queue w =
      omega (arith, cancel_for_prefix-budget v c prefix queue)
  happen-budget o c (Happening.goes_on f) queue w = omega arith

  history-budget :
      (o : Owner A W) (c : RetryConfig) (hs : List (Happening A W)) (queue : List (RetryItem A))
      (w : W × ℕ)
      → let (queue', w') = history v (counted o) c (map beside hs) queue w in
        w'.1 + budget c queue' ≤ (w.1 + budget c queue) + allowed c hs
  unfolding history allowed
  history-budget o c [] queue w = omega arith
  history-budget o c (h ∷ hs) queue w =
      let step = happen v (counted o) c (beside h) queue w in
      omega (arith, happen-budget o c h queue w, history-budget o c hs step.0 step.1)

  -- In any history of a queue, with polls, additions, removals, cancels and clears in any order, whatever
  -- the rest of the world does between them and however the executor answers: it is called no more often
  -- than the items of the queue had attempts left at the beginning, counted down from the maximum, and
  -- for each addition as often again as `max_attempts` less the attempt that failed. A queue that is
  -- cleared in the middle of a poll is not covered.
  pub history-calls :
      (o : Owner A W) (c : RetryConfig) (hs : List (Happening A W)) (queue : List (RetryItem A))
      (w : W)
      → (history v (counted o) c (map beside hs) queue (w, 0)).1.1 ≤ budget c queue + allowed c hs
  history-calls o c hs queue w = omega (arith, history-budget o c hs queue (w, 0))
