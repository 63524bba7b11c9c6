-- ===== src/RetryQueue/Tests.antt =====
-- Concrete runs of the retry queue, and the theorems at inputs that meet their hypotheses.
use grid_bot_validation.Prelude.{
  ℕ, zero, suc, ◌+◌, ◌≤◌, ◌≡◌, refl, ◌↔◌, ◌==◌, true, false, none, some, List, [], ◌∷◌, length, map,
}
use grid_bot_validation.Text.{same_text, extract_client_order_prefix}
use grid_bot_validation.RetryQueue.{
  IntentView, RetryResult, Owner, RetryItem, RetryConfig, process_due, process_items, process_item,
  after_retry, put_off, add, remove, cancel_for_prefix, has_prefix,
}
use grid_bot_validation.RetryQueue.Budget.{
  Happening, counted, budget, allowed, beside, happen, history, history-calls,
}
use grid_bot_validation.RetryQueue.Prefix.{without, IsFor, cancel_for_prefix_correct}

-- Intents are numbers here; the world is its clock, which moves on by one second with each call
-- of an executor that always fails.
abbrev owner : Owner ℕ ℕ
owner = record {
  now = λ w. (w, w);
  is_paused = λ w. false;
  execute = λ a w. (RetryResult.other_error, w + 1_000_000);
}

abbrev config : RetryConfig
config = record {
  max_attempts = 3;
  max_elapsed = 30_000_000;
  initial_backoff = 1_000_000;
  backoff_multiplier = 2;
}

abbrev item : ℕ → RetryItem ℕ
item n = record {
  intent = n;
  attempt_count = 1;
  first_attempt_ts = 0;
  next_retry_ts = 1_000_000;
  last_error = RetryResult.other_error;
}

abbrev queue : List (RetryItem ℕ)
queue = item 1 ∷ item 2 ∷ []

abbrev view : IntentView ℕ
view = record {
  place_ids = λ n. elim n [ zero ↦ none | suc k ↦ some (k ∷ [], some (k ∷ 45 ∷ 7 ∷ [])) ];
  same = ◌==◌;
}

abbrev later : Happening ℕ ℕ
later = Happening.goes_on λ w. w + 5_000_000

-- Intent 3 comes in after the first poll, and intent 1 is taken out after the second.
abbrev happenings : List (Happening ℕ ℕ)
happenings =
    later
    ∷ Happening.poll
    ∷ Happening.adds 3 RetryResult.other_error
    ∷ later
    ∷ Happening.poll
    ∷ Happening.removes 1
    ∷ later
    ∷ Happening.poll
    ∷ later
    ∷ Happening.poll
    ∷ []

-- Items 1 and 2 are tried twice more, as is the added one, which is dropped then.
history_run :
    let (left, (time, calls)) =
      history view (counted owner) config (map beside happenings) queue (0, 0) in
    (left ≡ []) × (calls ≡ 6)
unfolding history happen process_due process_items process_item after_retry put_off add remove
history_run = (refl, refl)

history-calls_example :
    (history view (counted owner) config (map beside happenings) queue (0, 0)).1.1
    ≤ budget config queue + allowed config happenings
history-calls_example = history-calls view owner config happenings queue 0

prefix_run : (cancel_for_prefix view (1 ∷ []) queue).0 ≡ 1
unfolding cancel_for_prefix has_prefix same_text extract_client_order_prefix
prefix_run = refl

cancel_for_prefix_correct_example :
    let (removed, kept) = cancel_for_prefix view (1 ∷ []) queue in
    (kept ≡ without (has_prefix view (1 ∷ [])) queue)
    × (removed + length kept ≡ 2)
    × ((i : RetryItem ℕ) → (has_prefix view (1 ∷ []) i ≡ true) ↔ IsFor view (1 ∷ []) i)
cancel_for_prefix_correct_example = cancel_for_prefix_correct view (1 ∷ []) queue
