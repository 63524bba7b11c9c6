-- ===== src/Runner/Closing.antt =====
-- The reduce-only orders of a position, next to its size: `_is_good_to_place` of
-- apps/gridbot/src/gridbot/runner.py.
pub mod Sent
pub mod Placed
use grid_bot_validation.Prelude.{
  ℕ, ◌≡◌, refl, sym, ap, subst, ◌∙◌, ◌⊎◌, inl, inr, ◌&&◌, ◌||◌, not, Bool, true, false, Option,
  none, some, List, [], ◌∷◌, ◌++◌, if◌then◌else◌, arith, Bool-cases,
}
use grid_bot_validation.Prelude.Int.{ℤ, pos, ◌+ℤ◌, ltb_ℤ, int_laws}
use grid_bot_validation.Text.{Text, same_text}
use grid_bot_validation.Dict.{Dict, get, put, values}
use grid_bot_validation.Outcome.{Result, ok, err}
use grid_bot_validation.Decimal.{Decimals, zero_dec}
use grid_bot_validation.Backtest.{OrderSide, OrderDirection, same_side}
use grid_bot_validation.Executor.{PlaceLimitIntent, OrderResult, ExecState, execute_place}
use grid_bot_validation.Executor.Errors.{is_truncate_error, is_insufficient_balance}
use grid_bot_validation.TruncateBreaker.{record_110017}
use grid_bot_validation.Runner.{
  TrackedStatus, TrackedOrder, LimitOrder, Limits, StrategyRunner, RunState, Outside, at_direction,
}
use grid_bot_validation.Runner.Orders.{
  resting, resting_if, is_live, same_order, get_limit_orders, list_order, listed, order_dict,
}
use grid_bot_validation.Runner.Guard.{
  scan_orders, add_closing, close_side, fits_position, position_size,
}
use grid_bot_validation.Runner.Admit.{admit}
use grid_bot_validation.Runner.Place.{
  track, tracked_as, on_error, is_safety_cap, after_110017, after_refusal, after_answer, executed,
  send_with, send, send_admitted, execute_place_intent, record_placement_failure,
  assign_wire_link_id, reusable_link, is_tracked_live,
}
use grid_bot_validation.Runner.Batch.{limits_of}
use grid_bot_validation.Runner.Keeps.{
  Kept, Passes, IsGood, admit-Passes, note_trip-Kept, after_success-Kept,
  record_placement_failure-Kept,
}
use grid_bot_validation.Runner.Distinct.{unless_none}

-- Sums and comparisons without rounding, counted in whole units.
pub record IsAdditive {D : Type 0} (dec : Decimals D) (value : D → ℤ) : Type 0 where
  pub value_zero : value (dec.ratio (pos 0) 1) ≡ pos 0
  pub value_add : (x y : D) → value (dec.add x y) ≡ value x +ℤ value y
  pub value_lt : (x y : D) → dec.lt x y ≡ true → ltb_ℤ (value x) (value y) ≡ true

module _ {D : Type 0} (value : D → ℤ) where
  -- What an order that rests closes of a position.
  abbrev pub closing : OrderDirection → Option (PlaceLimitIntent D) → ℤ
  closing d none = pos 0
  closing d (some i) =
      if i.reduce_only && same_side i.side (close_side d) then value i.qty else pos 0

  -- What all orders that rest close of it.
  unfoldable pub closing_total : OrderDirection → Dict (TrackedOrder D) → ℤ
  closing_total d [] = pos 0
  closing_total d (e ∷ es) = closing d (resting e.1) +ℤ closing_total d es

  abbrev of_order : OrderDirection → LimitOrder D → ℤ
  of_order d o = if o.reduce_only && same_side o.side (close_side d) then value o.qty else pos 0

  sum_of : OrderDirection → List (LimitOrder D) → ℤ
  sum_of d [] = pos 0
  sum_of d (o ∷ os) = of_order d o +ℤ sum_of d os

  sum_of-append :
      (d : OrderDirection) (os ps : List (LimitOrder D))
      → sum_of d (os ++ ps) ≡ sum_of d os +ℤ sum_of d ps
  unfolding sum_of
  sum_of-append d [] ps = omega int_laws
  sum_of-append d (o ∷ os) ps = rw (sum_of-append d os ps) (omega int_laws)

  sum_of-listed :
      (d e : OrderDirection) (o : LimitOrder D) (ls : Limits D)
      → sum_of d (listed e o ls).long_orders +ℤ sum_of d (listed e o ls).short_orders
        ≡ of_order d o +ℤ (sum_of d ls.long_orders +ℤ sum_of d ls.short_orders)
  unfolding sum_of
  sum_of-listed d OrderDirection.long o ls = omega int_laws
  sum_of-listed d OrderDirection.short o ls = omega int_laws
  sum_of-listed d OrderDirection.other o ls = omega int_laws

  sum_of-list_order :
      (d : OrderDirection) (t : TrackedOrder D) (r : Option (PlaceLimitIntent D)) (ls : Limits D)
      → sum_of d (list_order t r ls).long_orders +ℤ sum_of d (list_order t r ls).short_orders
        ≡ closing d r +ℤ (sum_of d ls.long_orders +ℤ sum_of d ls.short_orders)
  sum_of-list_order d t none ls = omega int_laws
  sum_of-list_order d t (some i) ls = sum_of-listed d i.direction (order_dict t i) ls

  sum_of-limits :
      (d : OrderDirection) (orders : Dict (TrackedOrder D))
      → sum_of d (get_limit_orders (values orders)).long_orders
          +ℤ sum_of d (get_limit_orders (values orders)).short_orders
        ≡ closing_total d orders
  unfolding sum_of closing_total get_limit_orders
  sum_of-limits d [] = omega int_laws
  sum_of-limits d (e ∷ es) =
      sum_of-list_order d e.1 (resting e.1) (get_limit_orders (values es))
      ∙ ap (λ z. closing d (resting e.1) +ℤ z) (sum_of-limits d es)

  abbrev found_closing : OrderDirection → Option (TrackedOrder D) → ℤ
  found_closing d none = pos 0
  found_closing d (some t) = closing d (resting t)

  -- An entry that rests in place of one that does not
  closing_total-put :
      (d : OrderDirection) (orders : Dict (TrackedOrder D)) (key : Text) (t : TrackedOrder D)
      → found_closing d (get orders key) ≡ pos 0
      → closing_total d (put orders key t) ≡ closing_total d orders +ℤ closing d (resting t)
  unfolding closing_total get put
  closing_total-put d [] key t h = omega int_laws
  closing_total-put d (e ∷ es) key t h = elim (Bool-cases (same_text e.0 key)) [
    | inl here ↦
        let idle : closing d (resting e.1) ≡ pos 0 =
          ap (λ b. found_closing d (if b then some e.1 else get es key)) (sym here) ∙ h in
        rw (here, idle) (omega int_laws)
    | inr on ↦
        let later =
          closing_total-put d es key t
            (ap (λ b. found_closing d (if b then some e.1 else get es key)) (sym on) ∙ h) in
        rw (on, later) (omega int_laws)
  ]
