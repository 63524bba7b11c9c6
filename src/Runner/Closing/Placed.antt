-- ===== src/Runner/Closing/Placed.antt =====
-- A placement against the size of its position: `_execute_place_intent` of
-- apps/gridbot/src/gridbot/runner.py.
use grid_bot_validation.Prelude.{
  ℕ, ◌≡◌, refl, sym, ap, subst, ◌∙◌, ◌⊎◌, inl, inr, ◌&&◌, Bool, true, false, some, List, [], ◌∷◌,
  ◌++◌, if◌then◌else◌, Bool-cases,
}
use grid_bot_validation.Prelude.Int.{ℤ, pos, ◌+ℤ◌, ltb_ℤ, int_laws}
use grid_bot_validation.Dict.{Dict, values}
use grid_bot_validation.Decimal.{Decimals, zero_dec}
use grid_bot_validation.Backtest.{same_side}
use grid_bot_validation.Executor.{PlaceLimitIntent}
use grid_bot_validation.Runner.{TrackedOrder, LimitOrder, StrategyRunner, RunState, Outside}
use grid_bot_validation.Runner.Orders.{same_order, get_limit_orders}
use grid_bot_validation.Runner.Guard.{
  scan_orders, add_closing, close_side, fits_position, position_size,
}
use grid_bot_validation.Runner.Admit.{admit}
use grid_bot_validation.Runner.Place.{send_admitted, execute_place_intent}
use grid_bot_validation.Runner.Batch.{limits_of}
use grid_bot_validation.Runner.Keeps.{Passes, IsGood, admit-Passes}
use grid_bot_validation.Runner.Distinct.{unless_none}
use grid_bot_validation.Runner.Closing.Sent.{plus_zero, send-Counted}
use grid_bot_validation.Runner.Closing.{
  IsAdditive, closing_total, of_order, sum_of, sum_of-append, sum_of-limits,
}

unless_false : (b : Bool) {r : Bool} → (if b then false else r) ≡ true → r ≡ true
unless_false true h = absurd (cc h)
unless_false false h = h

and_left : (a b : Bool) → (a && b) ≡ true → a ≡ true
and_left true b h = refl
and_left false b h = h

module _ {D : Type 0} ⦃dec : Decimals D⦄ (value : D → ℤ) (exact : IsAdditive dec value) where
  value-add_closing :
      (i : PlaceLimitIntent D) (z : D) (o : LimitOrder D)
      → value (add_closing i z o) ≡ value z +ℤ of_order value i.direction o
  value-add_closing i z o =
      elim (Bool-cases (o.reduce_only && same_side o.side (close_side i.direction))) [
        | inl closes ↦ rw closes (exact.value_add z o.qty)
        | inr other ↦ rw other (omega int_laws)
      ]

  value-scan_orders :
      (i : PlaceLimitIntent D) (z sum : D) (os : List (LimitOrder D))
      → scan_orders i z os ≡ some sum
      → value sum ≡ value z +ℤ sum_of value i.direction os
  unfolding scan_orders sum_of
  value-scan_orders i z sum [] h = let same : z ≡ sum = cc h in rw same (omega int_laws)
  value-scan_orders i z sum (o ∷ os) h =
      let on = unless_none (same_order o i) h in
      rw (value-scan_orders i (add_closing i z o) sum os on.1, value-add_closing i z o)
        (omega int_laws)

  -- What the guard has found of the closing orders.
  pub IsGood-fits :
      (i : PlaceLimitIntent D) (orders : Dict (TrackedOrder D)) (s : StrategyRunner D)
      → IsGood (get_limit_orders (values orders)) s i
      → i.reduce_only ≡ true
      → ltb_ℤ
          (closing_total value i.direction orders +ℤ value i.qty)
          (value (position_size i.direction s))
        ≡ true
  unfolding fits_position
  IsGood-fits i orders s good reduce =
      let ls = get_limit_orders (values orders) in
      let size = position_size i.direction s in
      let fits = unless_false (dec.eq size zero_dec) (good.fits reduce) in
      let total =
        value-scan_orders i zero_dec good.sum (ls.long_orders ++ ls.short_orders) good.scanned
        ∙ ap (λ z. z +ℤ sum_of value i.direction (ls.long_orders ++ ls.short_orders))
            exact.value_zero
        ∙ ap (λ z. pos 0 +ℤ z)
            (sum_of-append value i.direction ls.long_orders ls.short_orders
              ∙ sum_of-limits value i.direction orders) in
      let both : value (dec.add i.qty good.sum)
          ≡ closing_total value i.direction orders +ℤ value i.qty =
        exact.value_add i.qty good.sum ∙ ap (λ z. value i.qty +ℤ z) total ∙ omega int_laws in
      ap (λ z. ltb_ℤ z (value size)) (sym both) ∙ exact.value_lt (dec.add i.qty good.sum) size fits

module _ {D W : Type 0} ⦃dec : Decimals D⦄ (value : D → ℤ) (exact : IsAdditive dec value)
    (x : Outside D W) where
  -- What a placement does to the reduce-only orders of a position. Where sums and comparisons are
  -- exact: if the guard admits an intent, then after it has been sent the reduce-only
  -- quantities that rest on the closing side of its direction add up to what they added up to before, or
  -- they add up to less than the size of the position that the guard has read. This holds whatever the
  -- exchange answers, and also where the placement ends in an exception.
  pub execute_place_intent-closing :
      (i i' : PlaceLimitIntent D) (now : ℕ) (st st' : RunState D W)
      → admit x i (limits_of st) st ≡ (some (i', now), st')
      → let after = (execute_place_intent x i (limits_of st) st).1.0 in
        (closing_total value i'.direction after.tracked_orders
          ≡ closing_total value i'.direction st.0.tracked_orders)
        ⊎ (ltb_ℤ
              (closing_total value i'.direction after.tracked_orders)
              (value (position_size i'.direction st'.0))
            ≡ true)
  unfolding execute_place_intent
  execute_place_intent-closing i i' now st st' admitted =
      let d = i'.direction in
      let passes : Passes (limits_of st) st.0 st'.0 (some (i', now)) =
        subst (λ r. Passes (limits_of st) st.0 r.1.0 r.0) admitted
          (admit-Passes x i (limits_of st) st) in
      let before = ap (closing_total value d) passes.0.tracked in
      let fits = IsGood-fits value exact i' st.0.tracked_orders st'.0 passes.1 in
      subst
        (λ r.
          (closing_total value d (send_admitted x r).1.0.tracked_orders
            ≡ closing_total value d st.0.tracked_orders)
          ⊎ (ltb_ℤ (closing_total value d (send_admitted x r).1.0.tracked_orders)
                (value (position_size d st'.0))
              ≡ true))
        (sym admitted)
        (elim (send-Counted value d x i' now st') [
          | inl same ↦ inl (same ∙ before)
          | inr more ↦ elim (Bool-cases (i'.reduce_only && same_side i'.side (close_side d))) [
            | inl closes ↦
                let total =
                  more
                  ∙ ap
                      (λ b.
                        closing_total value d st'.0.tracked_orders
                        +ℤ (if b then value i'.qty else pos 0))
                      closes
                  ∙ ap (λ z. z +ℤ value i'.qty) before in
                inr (
                  ap (λ z. ltb_ℤ z (value (position_size d st'.0))) total
                  ∙ fits (and_left i'.reduce_only _ closes))
            | inr opens ↦ inl (
                more
                ∙ ap
                    (λ b.
                      closing_total value d st'.0.tracked_orders
                      +ℤ (if b then value i'.qty else pos 0))
                    opens
                ∙ plus_zero (closing_total value d st'.0.tracked_orders)
                ∙ before)
          ]
        ])
