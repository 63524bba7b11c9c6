-- ===== src/Backtest/Follower.antt =====
-- The replay of recorded executions as fills: class EventFollower of
-- apps/backtest/src/backtest/fill_simulator.py. Warnings are left out.
pub mod Drains
pub mod Pending
use grid_bot_validation.Prelude.{
  ℕ, suc, ◌+◌, ◌-◌, ltb, leb, Bool, true, false, ◌&&◌, Option, none, some, List, [], ◌∷◌, drop,
  length, if◌then◌else◌,
}
use grid_bot_validation.Text.{Text, same_text, text_lt, extract_client_order_prefix}
use grid_bot_validation.Dict.{Dict, get, put, values}
use grid_bot_validation.Outcome.{Error, Action, Result, ok, err}
use grid_bot_validation.Decimal.{Decimals, lt, abs}
use grid_bot_validation.Backtest.{OrderSide, same_side, SimulatedOrder}

pub record RecordedExecution (D : Type 0) : Type 0 where
  pub exec_id : Text
  pub order_link_id : Option Text
  pub order_id : Text
  pub side : OrderSide
  pub exec_price : D
  pub exec_qty : D
  pub exec_fee : D
  pub closed_pnl : D
  pub exchange_ts : ℕ

pub record MatchResult : Type 0 where
  pub replay_order_id : Text
  pub matcher_key : Text
  pub recorded_order_id : Text

pub record EventFollower (D : Type 0) : Type 0 where
  pub executions : List (RecordedExecution D)
  pub symbol : Text
  pub initial_prev_ts : ℕ
  pub cursor : ℕ
  pub last_tick_ts : Option ℕ
  pub last_index_by_order_id : Dict ℕ
  pub no_link_id_count : ℕ
  pub fallback_order_id_count : ℕ
  pub fallback_price_count : ℕ

abbrev pub is_before : ℕ → Option ℕ → Bool
is_before tick_ts none = false
is_before tick_ts (some last) = ltb tick_ts last

abbrev pub at_or_after : ℕ → Option ℕ → Bool
at_or_after cursor none = false
at_or_after cursor (some last_idx) = leb cursor last_idx

module _ {D : Type 0} where
  -- The loop of `__init__`, from index `i`
  unfoldable pub index_from : ℕ → Dict ℕ → List (RecordedExecution D) → Dict ℕ
  index_from i d [] = d
  index_from i d (ex ∷ executions) = index_from (suc i) (put d ex.order_id i) executions

  -- `__init__`; a microsecond before `start_ts` there is another one.
  abbrev pub follower : List (RecordedExecution D) → Text → (start_ts : ℕ) → EventFollower D
  follower executions symbol start_ts = record {
    executions = executions;
    symbol = symbol;
    initial_prev_ts = start_ts - 1;
    cursor = 0;
    last_tick_ts = none;
    last_index_by_order_id = index_from 0 [] executions;
    no_link_id_count = 0;
    fallback_order_id_count = 0;
    fallback_price_count = 0;
  }

  -- `remaining`
  abbrev pub remaining : EventFollower D → ℕ
  remaining f = length f.executions - f.cursor

  -- The loop of `drain` on the executions from the cursor on: what it drains, and by how many the
  -- cursor advances.
  unfoldable pub drain_from :
      (prev_ts tick_ts : ℕ) → List (RecordedExecution D) → List (RecordedExecution D) × ℕ
  drain_from prev_ts tick_ts [] = ([], 0)
  drain_from prev_ts tick_ts (ex ∷ executions) =
      let (drained, n) = drain_from prev_ts tick_ts executions in
      if ltb tick_ts ex.exchange_ts
      then ([], 0)
      else (if leb ex.exchange_ts prev_ts then drained else ex ∷ drained, suc n)

  unfoldable pub drain :
      (prev_ts tick_ts : ℕ) → Action (EventFollower D) (List (RecordedExecution D))
  drain prev_ts tick_ts f =
      let (drained, n) = drain_from prev_ts tick_ts (drop f.cursor f.executions) in
      if is_before tick_ts f.last_tick_ts
      then (err Error.non_monotonic_tick, f)
      else (ok drained, record f { last_tick_ts = some tick_ts; cursor = f.cursor + n })

  unfoldable pub has_pending_for_order : EventFollower D → Text → Bool
  has_pending_for_order f recorded_order_id =
      at_or_after f.cursor (get f.last_index_by_order_id recorded_order_id)

  -- The first active order with a client order id
  unfoldable pub first_with : Text → List (SimulatedOrder D) → Option (SimulatedOrder D)
  first_with key [] = none
  first_with key (o ∷ os) =
      let rest = first_with key os in if same_text o.client_order_id key then some o else rest

  abbrev pub result_for :
      RecordedExecution D → Text → Option (SimulatedOrder D) → Option MatchResult
  result_for ex key none = none
  result_for ex key (some o) =
      some (record {
        replay_order_id = o.order_id;
        matcher_key = key;
        recorded_order_id = ex.order_id;
      })

module _ {D : Type 0} ⦃dec : Decimals D⦄ where
  -- The order of the keys `(abs(o.price - execution.exec_price), o.order_id)`
  abbrev closer : RecordedExecution D → SimulatedOrder D → SimulatedOrder D → Bool
  closer ex o o' =
      let d = abs (dec.sub o.price ex.exec_price) in
      let d' = abs (dec.sub o'.price ex.exec_price) in
      if dec.eq d d' then text_lt o.order_id o'.order_id else lt d d'

  -- `min` of the candidates: the first of those that no other is closer than
  unfoldable pub closest :
      RecordedExecution D
      → Option (SimulatedOrder D)
      → List (SimulatedOrder D)
      → Option (SimulatedOrder D)
  closest ex best [] = best
  closest ex none (o ∷ os) = closest ex (some o) os
  closest ex (some b) (o ∷ os) = closest ex (some (if closer ex o b then o else b)) os

  unfoldable pub candidates :
      RecordedExecution D → List (SimulatedOrder D) → List (SimulatedOrder D)
  candidates ex [] = []
  candidates ex (o ∷ os) =
      let rest = candidates ex os in if same_side o.side ex.side then o ∷ rest else rest

  -- The part of `match` for an execution without a link id
  unfoldable pub match_fallback :
      RecordedExecution D
      → Dict (SimulatedOrder D)
      → EventFollower D
      → Option MatchResult × EventFollower D
  match_fallback ex active_orders f =
      let counted = record f { no_link_id_count = f.no_link_id_count + 1 } in
      elim (get active_orders ex.order_id) [
        | some o ↦ (
          result_for ex ex.order_id (some o),
          record counted { fallback_order_id_count = counted.fallback_order_id_count + 1 },
        )
        | none ↦ elim (closest ex none (candidates ex (values active_orders))) [
          | none ↦ (none, counted)
          | some best ↦ (
            result_for ex ex.order_id (some best),
            record counted { fallback_price_count = counted.fallback_price_count + 1 },
          )
        ]
      ]

  -- `match`
  unfoldable pub match_execution :
      RecordedExecution D
      → Dict (SimulatedOrder D)
      → EventFollower D
      → Option MatchResult × EventFollower D
  match_execution ex active_orders f = elim (extract_client_order_prefix ex.order_link_id) [
    | some key ↦ (result_for ex key (first_with key (values active_orders)), f)
    | none ↦ match_fallback ex active_orders f
  ]
