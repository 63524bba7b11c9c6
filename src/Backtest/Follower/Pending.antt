-- ===== src/Backtest/Follower/Pending.antt =====
-- When executions of an order remain: apps/backtest/src/backtest/fill_simulator.py.
use grid_bot_validation.Prelude.{
  ℕ, zero, suc, ◌+◌, ◌≤◌, ◌<◌, leb, ◌≡◌, refl, sym, ap, subst, ◌∙◌, Bool, true, false, ◌&&◌, ◌||◌,
  Option, none, some, List, [], ◌∷◌, drop, arith, inl, inr,
}
use grid_bot_validation.Text.{Text, same_text, same_text-of, same_text-cases}
use grid_bot_validation.Dict.{Dict, get, put}
use grid_bot_validation.Dict.Laws.{same_text_ne, get-put_self, get-put_ne}
use grid_bot_validation.Backtest.Follower.{
  RecordedExecution, follower, index_from, at_or_after, has_pending_for_order,
}

-- An index below `i`, if any.
abbrev Below : ℕ → Option ℕ → Type 0
Below i none = Unit {0}
Below i (some j) = j < i

Below-suc : (i : ℕ) (o : Option ℕ) → Below i o → Below (suc i) o
Below-suc i none h = tt
Below-suc i (some j) h = omega arith

-- An old index at the cursor or after it: the next index is after the cursor.
Below-at_or_after :
    (i cursor : ℕ) (o : Option ℕ) → Below i o → at_or_after cursor o ≡ true → leb cursor i ≡ true
Below-at_or_after i cursor none h k = absurd (cc k)
Below-at_or_after i cursor (some j) h k = ground arith

module _ {D : Type 0} where
  -- One of the executions is of an order.
  pub any_of : Text → List (RecordedExecution D) → Bool
  any_of id [] = false
  any_of id (ex ∷ executions) = let rest = any_of id executions in same_text ex.order_id id || rest

  -- One of the executions at the cursor or after it is of an order, the first one standing at `i`.
  any_from : (i cursor : ℕ) → Text → List (RecordedExecution D) → Bool
  any_from i cursor id [] = false
  any_from i cursor id (ex ∷ executions) =
      let rest = any_from (suc i) cursor id executions in
      (leb cursor i && same_text ex.order_id id) || rest

  any_from_all :
      (i cursor : ℕ) (id : Text) (xs : List (RecordedExecution D))
      → cursor ≤ i
      → any_from i cursor id xs ≡ any_of id xs
  unfolding any_from any_of
  any_from_all i cursor id [] h = refl
  any_from_all i cursor id (x ∷ xs) h = ground (arith, any_from_all (suc i) cursor id xs)

  any_from-drop :
      (i n : ℕ) (id : Text) (xs : List (RecordedExecution D))
      → any_from i (i + n) id xs ≡ any_of id (drop n xs)
  unfolding any_from any_of
  any_from-drop i zero id xs = any_from_all i (i + 0) id xs (omega arith)
  any_from-drop i (suc n) id [] = refl
  any_from-drop i (suc n) id (x ∷ xs) =
      let same : suc i + n ≡ i + suc n = omega arith in
      let later =
        subst (λ k. any_from (suc i) k id xs ≡ any_of id (drop n xs)) same
          (any_from-drop (suc i) n id xs) in
      ground (arith, later)

  index_from-any :
      (i cursor : ℕ) (d : Dict ℕ) (id : Text) (xs : List (RecordedExecution D))
      → Below i (get d id)
      → at_or_after cursor (get (index_from i d xs) id)
        ≡ (any_from i cursor id xs || at_or_after cursor (get d id))
  unfolding index_from any_from
  index_from-any i cursor d id [] h = refl
  index_from-any i cursor d id (x ∷ xs) h =
      let d' = put d x.order_id i in
      let old = Below-at_or_after i cursor (get d id) h in
      elim (same_text-cases x.order_id id) [
        | inl here ↦
            let got : get d' id ≡ some i =
              subst (λ k. get d' k ≡ some i) here (get-put_self d x.order_id i) in
            let below = subst (Below (suc i)) (sym got) (omega arith) in
            let later =
              index_from-any (suc i) cursor d' id xs below
              ∙ ap (λ o. any_from (suc i) cursor id xs || at_or_after cursor o) got in
            let same = subst (λ k. same_text x.order_id k ≡ true) here (same_text-of x.order_id) in
            later ∙ ground (arith, same, old)
        | inr other ↦
            let apart = same_text_ne x.order_id id other in
            let got = get-put_ne d x.order_id id i apart in
            let below = subst (Below (suc i)) (sym got) (Below-suc i (get d id) h) in
            let later =
              index_from-any (suc i) cursor d' id xs below
              ∙ ap (λ o. any_from (suc i) cursor id xs || at_or_after cursor o) got in
            later ∙ ground (arith, other)
      ]

  -- The test by the last index of an order says, wherever the cursor stands, just whether one of the
  -- executions that are not drained yet is of that order.
  pub has_pending_for_order-any :
      (executions : List (RecordedExecution D)) (symbol : Text) (start_ts cursor : ℕ) (id : Text)
      → let f = record (follower executions symbol start_ts) { cursor = cursor } in
        has_pending_for_order f id ≡ any_of id (drop cursor executions)
  unfolding has_pending_for_order get
  has_pending_for_order-any executions symbol start_ts cursor id =
      index_from-any 0 cursor [] id executions tt
      ∙ ground (arith, any_from-drop 0 cursor id executions)
