-- ===== src/AuthCooldown.antt =====
-- The auth cooldowns of the strategies: apps/gridbot/src/gridbot/auth_cooldown_manager.py, and how
-- apps/gridbot/src/gridbot/orchestrator.py wires them to the executors. Times are whole microseconds. An
-- alert keeps its key and its cycle and not its text; log lines are left out.
pub mod Sweep
pub mod Tracked
mod Tests
use grid_bot_validation.Prelude.{
  ℕ, zero, suc, ◌+◌, ◌-◌, ◌*◌, leb, Bool, Option, none, some, List, [], ◌∷◌, ◌++◌, if◌then◌else◌,
}
use grid_bot_validation.Text.{Text}
use grid_bot_validation.Dict.{Dict, get, put, pop, keys}
use grid_bot_validation.Outcome.{Error, Action, ◌>>◌, pure, raise, modify}
use grid_bot_validation.RetryQueue.{RetryItem}
use grid_bot_validation.Executor.{
  Exchange, Intent, IntentExecutor, reset_auth_cooldown, execute_batch,
}

-- `error_key` of an alert, with the cycle of its text
pub data Alert : Type 0 where
  auth_cooldown auth_cooldown_resume : (strat_id : Text) → (cycle : ℕ) → Alert

-- With the alerts that the notifier has been handed. An executor and a retry queue stand in the two
-- dicts only, where the orchestrator's other parts see what is done to them here.
pub record AuthCooldownManager (A : Type 0) : Type 0 where
  pub strategy_executors : Dict IntentExecutor
  pub retry_queues : Dict (List (RetryItem A))
  pub alerts : List Alert
  pub cooldown_minutes : ℕ
  pub auth_cooldown_until : Dict ℕ
  pub auth_cooldown_cycles : Dict ℕ

abbrev get_or_else : ℕ → Option ℕ → ℕ
get_or_else n none = n
get_or_else n (some k) = k

abbrev pub minutes : ℕ → ℕ
minutes n = n * 60_000_000

module _ {A : Type 0} where
  -- `cooldown_cycles`
  unfoldable pub cooldown_cycles : AuthCooldownManager A → Text → ℕ
  cooldown_cycles m strat_id = get_or_else 0 (get m.auth_cooldown_cycles strat_id)

  -- `retry_queue.clear()`, for a strategy that has a queue
  abbrev clear_queue :
      Text → Option (List (RetryItem A)) → Dict (List (RetryItem A)) → Dict (List (RetryItem A))
  clear_queue strat_id none queues = queues
  clear_queue strat_id (some q) queues = put queues strat_id []

  -- `enter` on the main thread
  unfoldable pub start_cooldown : Text → (now : ℕ) → AuthCooldownManager A → AuthCooldownManager A
  start_cooldown strat_id now m =
      let cycle = cooldown_cycles m strat_id + 1 in
      record m {
        auth_cooldown_cycles = put m.auth_cooldown_cycles strat_id cycle;
        auth_cooldown_until = put m.auth_cooldown_until strat_id (now + minutes m.cooldown_minutes);
        retry_queues = clear_queue strat_id (get m.retry_queues strat_id) m.retry_queues;
        alerts = m.alerts ++ Alert.auth_cooldown strat_id cycle ∷ [];
      }

  unfoldable pub enter :
      (on_main_thread : Bool) → Text → (now : ℕ) → Action (AuthCooldownManager A) (Unit {0})
  enter on_main_thread strat_id now =
      if on_main_thread then modify (start_cooldown strat_id now) else raise Error.not_main_thread

  -- The part of `sweep_expired` for a strategy that has an executor.
  unfoldable pub resume :
      Text → Option IntentExecutor → AuthCooldownManager A → AuthCooldownManager A
  resume strat_id none m = m
  resume strat_id (some executor) m = record m {
    strategy_executors = put m.strategy_executors strat_id (reset_auth_cooldown executor);
    alerts =
        m.alerts
        ++ Alert.auth_cooldown_resume strat_id (get_or_else 1 (get m.auth_cooldown_cycles strat_id))
          ∷ [];
  }

  -- `del self._auth_cooldown_until[strat_id]`, after the executor's reset
  unfoldable pub expire : Text → AuthCooldownManager A → AuthCooldownManager A
  expire strat_id m =
      let m' = resume strat_id (get m.strategy_executors strat_id) m in
      record m' { auth_cooldown_until = pop m'.auth_cooldown_until strat_id }

  -- A round of the loop, with the expiry that it reads: `KeyError` without one.
  unfoldable pub sweep_one : (now : ℕ) → Text → Option ℕ → Action (AuthCooldownManager A) (Unit {0})
  sweep_one now strat_id none = raise Error.missing_key
  sweep_one now strat_id (some expiry) =
      if leb expiry now then modify (expire strat_id) else pure tt

  unfoldable pub sweep_keys : (now : ℕ) → List Text → Action (AuthCooldownManager A) (Unit {0})
  sweep_keys now [] = pure tt
  sweep_keys now (key ∷ keys') =
      (λ m. sweep_one now key (get m.auth_cooldown_until key) m) >> sweep_keys now keys'

  unfoldable pub sweep_expired : (now : ℕ) → Action (AuthCooldownManager A) (Unit {0})
  sweep_expired now m = sweep_keys now (keys m.auth_cooldown_until) m

  -- The calls of `on_cooldown_entered`, which the orchestrator binds to `enter` of the strategy; they
  -- are made on the main thread. A call touches nothing that the executor goes on to read, so that it may
  -- be written after the batch.
  abbrev pub deliver : ℕ → Text → (now : ℕ) → AuthCooldownManager A → AuthCooldownManager A
  deliver zero strat_id now m = m
  deliver (suc n) strat_id now m = deliver n strat_id now (start_cooldown strat_id now m)

abbrev pub calls_between : (before after : Option ℕ) → ℕ
calls_between (some n) (some k) = k - n
calls_between _ _ = 0

module _ {A D W : Type 0} where
  -- A batch of the executor of a strategy; `now` is what the clock reads in the callback.
  unfoldable pub run_batch :
      Exchange D W
      → Text
      → IntentExecutor
      → List (Intent D)
      → W
      → (now : ℕ) → AuthCooldownManager A
      → AuthCooldownManager A
  run_batch x strat_id executor intents w now m =
      let (r, (executor', w')) = execute_batch x intents (executor, w) in
      deliver (calls_between executor.on_cooldown_entered executor'.on_cooldown_entered) strat_id
        now (record m { strategy_executors = put m.strategy_executors strat_id executor' })
