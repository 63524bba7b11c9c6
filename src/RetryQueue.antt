-- ===== src/RetryQueue.antt =====
-- The queue of failed intents: apps/gridbot/src/gridbot/retry_queue.py.
-- Times are whole microseconds. A string is the list of its characters' codes. The backoff's
-- multiplier is a whole number, as its default is. Warnings and other log lines are left out.
pub mod Budget
pub mod Prefix
mod Tests
use grid_bot_validation.Prelude.{
  ℕ, suc, ◌+◌, ◌*◌, ◌^◌, ltb, leb, ◌==◌, Bool, true, false, ◌&&◌, ◌||◌, Option, none, some, List,
  [], ◌∷◌, ◌++◌, length, if◌then◌else◌,
}
use grid_bot_validation.Text.{Text, same_text, extract_client_order_prefix}

abbrev pub same_as : Text → Option Text → Bool
same_as prefix none = false
same_as prefix (some text) = same_text text prefix

-- What the queue reads of an intent of any type `A`: the ids of a placement (`none` for a
-- cancel), and `==`.
pub record IntentView (A : Type 0) : Type 0 where
  pub place_ids : A → Option (Text × Option Text)
  pub same : A → A → Bool

-- The result of a retry: success, one of the errors that the queue drops an item for (those that
-- begin with `safety_cap`, and three others), any other error, or an exception.
pub data RetryResult : Type 0 where
  success safety_cap truncate_breaker_blocked duplicate_order_blocked same_order_blocked other_error
        raised :
      RetryResult

-- What the owner hands in, on a state `W` of the rest of the world: the clock, `is_paused` and
-- `executor_func`. None of them touches the queue: a retry that begins an auth cooldown, whose start clears
-- the queue in the middle of the loop, is not covered.
pub record Owner (A W : Type 0) : Type 0 where
  pub now : W → ℕ × W
  pub is_paused : W → Bool
  pub execute : A → W → RetryResult × W

pub record RetryItem (A : Type 0) : Type 0 where
  pub intent : A
  pub attempt_count : ℕ
  pub first_attempt_ts : ℕ
  pub next_retry_ts : ℕ
  pub last_error : RetryResult

-- The numbers that `__init__` takes.
pub record RetryConfig : Type 0 where
  pub max_attempts : ℕ
  pub max_elapsed : ℕ
  pub initial_backoff : ℕ
  pub backoff_multiplier : ℕ

-- What becomes of an item in `process_due`: it stays, it goes, or the loop breaks at it.
pub data Fate (A : Type 0) : Type 0 where
  stays : RetryItem A → Fate A
  goes breaks : Fate A

module _ {A : Type 0} where
  -- `increment_attempt`
  abbrev pub increment_attempt : RetryResult → (backoff now : ℕ) → RetryItem A → RetryItem A
  increment_attempt error backoff now item = record item {
    attempt_count = item.attempt_count + 1;
    last_error = error;
    next_retry_ts = now + backoff;
  }

module _ {A W : Type 0} where
  -- `add`: the clock is read for `first_attempt_ts` and then for `next_retry_ts`.
  unfoldable pub add :
      Owner A W → RetryConfig → A → RetryResult → List (RetryItem A) → W → List (RetryItem A) × W
  add o c intent error queue w =
      let (next, w') = o.now w in
      let (first, w'') = o.now w' in
      (
        queue
            ++ record {
              intent = intent;
              attempt_count = 1;
              first_attempt_ts = first;
              next_retry_ts = next + c.initial_backoff;
              last_error = error;
            }
              ∷ [],
        w'',
      )

  -- The `else` and the `except`: the next retry is put off.
  unfoldable pub put_off : Owner A W → RetryConfig → RetryResult → RetryItem A → W → Fate A × W
  put_off o c error item w =
      let (t, w') = o.now w in
      (
        Fate.stays (
            increment_attempt error (c.initial_backoff * c.backoff_multiplier ^ item.attempt_count)
              t item),
        w',
      )

  -- The part under `try`, for each result.
  unfoldable pub after_retry : Owner A W → RetryConfig → RetryItem A → RetryResult → W → Fate A × W
  after_retry o c item RetryResult.success w = (Fate.goes, w)
  after_retry o c item RetryResult.safety_cap w = (Fate.goes, w)
  after_retry o c item RetryResult.truncate_breaker_blocked w = (Fate.goes, w)
  after_retry o c item RetryResult.duplicate_order_blocked w = (Fate.goes, w)
  after_retry o c item RetryResult.same_order_blocked w = (Fate.goes, w)
  after_retry o c item RetryResult.other_error w = put_off o c RetryResult.other_error item w
  after_retry o c item RetryResult.raised w = put_off o c RetryResult.raised item w

  -- One round of the loop.
  unfoldable pub process_item : Owner A W → RetryConfig → RetryItem A → W → Fate A × W
  process_item o c item w =
      let (t, w') = o.now w in
      if ltb t item.next_retry_ts
      then (Fate.stays item, w')
      else if leb c.max_attempts item.attempt_count
      then (Fate.goes, w')
      else let (t', w'') = o.now w' in
        if leb (item.first_attempt_ts + c.max_elapsed) t'
        then (Fate.goes, w'')
        else if o.is_paused w''
        then (Fate.breaks, w'')
        else let (r, w''') = o.execute item.intent w'' in after_retry o c item r w'''

  -- The loop: the queue that it leaves, `processed`, and the world. `self._queue.remove(item)` takes
  -- away the first item that is equal, which is told from the item itself by nothing.
  unfoldable pub process_items :
      Owner A W → RetryConfig → List (RetryItem A) → W → (List (RetryItem A) × ℕ) × W
  process_items o c [] w = (([], 0), w)
  process_items o c (item ∷ items) w =
      let (fate, w') = process_item o c item w in
      elim fate [
        | Fate.stays item' ↦
            let ((kept, n), w'') = process_items o c items w' in ((item' ∷ kept, n), w'')
        | Fate.goes ↦ let ((kept, n), w'') = process_items o c items w' in ((kept, suc n), w'')
        | Fate.breaks ↦ ((item ∷ items, 0), w')
      ]

  unfoldable pub process_due :
      Owner A W → RetryConfig → List (RetryItem A) → W → (List (RetryItem A) × ℕ) × W
  process_due o c queue w = if o.is_paused w then ((queue, 0), w) else process_items o c queue w

module _ {A : Type 0} where
  -- `remove`
  unfoldable pub remove : IntentView A → A → List (RetryItem A) → Bool × List (RetryItem A)
  remove v intent [] = (false, [])
  remove v intent (item ∷ items) =
      let (found, rest) = remove v intent items in
      if v.same item.intent intent then (true, items) else (found, item ∷ rest)

  -- The test of `cancel_for_prefix`.
  unfoldable pub has_prefix : IntentView A → Text → RetryItem A → Bool
  unfolding same_text extract_client_order_prefix
  has_prefix v prefix item = elim (v.place_ids item.intent) [
    | none ↦ false
    | some (client_order_id, link) ↦
        same_text client_order_id prefix || same_as prefix (extract_client_order_prefix link)
  ]

  unfoldable pub cancel_for_prefix :
      IntentView A → Text → List (RetryItem A) → ℕ × List (RetryItem A)
  cancel_for_prefix v prefix [] = (0, [])
  cancel_for_prefix v prefix (item ∷ items) =
      let (removed, kept) = cancel_for_prefix v prefix items in
      if has_prefix v prefix item then (suc removed, kept) else (removed, item ∷ kept)

  -- `clear`
  abbrev pub clear : List (RetryItem A) → ℕ × List (RetryItem A)
  clear queue = (length queue, [])
