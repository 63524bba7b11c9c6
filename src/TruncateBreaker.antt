-- ===== src/TruncateBreaker.antt =====
-- The circuit breaker for refused closes, apps/gridbot/src/gridbot/truncate_breaker.py, and how
-- apps/gridbot/src/gridbot/runner.py asks it. Times are whole microseconds; the dicts are maps from
-- every key, empty where a key is missing. Log lines are left out.
pub mod Storm
mod Attempts
pub mod Bound
mod Counts
mod Tests
use grid_bot_validation.Prelude.{
  ℕ, ◌+◌, ltb, leb, Bool, true, false, ◌&&◌, Option, none, some, List, [], ◌∷◌, ◌++◌, length,
  if◌then◌else◌,
}
use grid_bot_validation.Decimal.{Decimals}
use grid_bot_validation.Backtest.{OrderSide, same_side}

-- (side, price)
abbrev pub ScopeKey : Type 0 → Type 0
ScopeKey D = OrderSide × D

pub record BreakerConfig : Type 0 where
  pub max_consecutive : ℕ
  pub window : ℕ
  pub cooldown : ℕ

pub record TruncateBreaker (D : Type 0) : Type 0 where
  pub config : BreakerConfig
  pub events : ScopeKey D → List ℕ
  pub tripped_until : ScopeKey D → Option ℕ

-- `while dq and dq[0] < now - window: dq.popleft()`
unfoldable pub evict_old : (window now : ℕ) → List ℕ → List ℕ
evict_old window now [] = []
evict_old window now (t ∷ ts) =
    let rest = evict_old window now ts in if ltb (t + window) now then rest else t ∷ ts

module _ {D : Type 0} where
  -- `__init__`
  abbrev pub breaker : BreakerConfig → TruncateBreaker D
  breaker config = record { config = config; events = λ k. []; tripped_until = λ k. none }

module _ {D : Type 0} ⦃dec : Decimals D⦄ where
  abbrev pub same_key : ScopeKey D → ScopeKey D → Bool
  same_key k k' = same_side k.0 k'.0 && dec.eq k.1 k'.1

  -- An entry of a dict is written.
  abbrev pub at_key : {V : Type 0} → ScopeKey D → V → (ScopeKey D → V) → ScopeKey D → V
  at_key key v f k = if same_key key k then v else f k

  -- Both entries of a key are deleted.
  abbrev pub reset : ScopeKey D → TruncateBreaker D → TruncateBreaker D
  reset key b = record b {
    events = at_key key [] b.events;
    tripped_until = at_key key none b.tripped_until;
  }

  -- `is_blocked`, for what `tripped_until` says of the key
  unfoldable pub blocked_until :
      Option ℕ → ScopeKey D → (now : ℕ) → TruncateBreaker D → Bool × TruncateBreaker D
  blocked_until none key now b = (false, b)
  blocked_until (some until) key now b = if ltb now until then (true, b) else (false, reset key b)

  abbrev pub is_blocked : ScopeKey D → (now : ℕ) → TruncateBreaker D → Bool × TruncateBreaker D
  is_blocked key now b = blocked_until (b.tripped_until key) key now b

  -- The part of `record_110017` after the cooldown
  unfoldable pub count_event : ScopeKey D → (now : ℕ) → TruncateBreaker D → Bool × TruncateBreaker D
  count_event key now b =
      let dq = evict_old b.config.window now (b.events key ++ now ∷ []) in
      let b' = record b { events = at_key key dq b.events } in
      if leb b.config.max_consecutive (length dq)
      then (
        true,
        record b' { tripped_until = at_key key (some (now + b.config.cooldown)) b'.tripped_until },
      )
      else (false, b')

  unfoldable pub record_until :
      Option ℕ → ScopeKey D → (now : ℕ) → TruncateBreaker D → Bool × TruncateBreaker D
  record_until none key now b = count_event key now b
  record_until (some until) key now b =
      if ltb now until then (false, b) else count_event key now (reset key b)

  abbrev pub record_110017 : ScopeKey D → (now : ℕ) → TruncateBreaker D → Bool × TruncateBreaker D
  record_110017 key now b = record_until (b.tripped_until key) key now b

  -- `record_success`
  abbrev pub record_success : ScopeKey D → TruncateBreaker D → TruncateBreaker D
  record_success key b = reset key b
