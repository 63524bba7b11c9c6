-- ===== src/Runner/Distinct.antt =====
-- No order of the book twice: `_execute_intents` of apps/gridbot/src/gridbot/runner.py.
pub mod Run
use grid_bot_validation.Prelude.{
  ℕ, ◌≡◌, refl, sym, ap, subst, ◌∙◌, ◌↔◌, inl, inr, ◌&&◌, Bool, true, false, not, Option, none,
  some, List, [], ◌∷◌, ◌++◌, if◌then◌else◌, arith, Bool-cases,
}
use grid_bot_validation.Text.{Text, same_text}
use grid_bot_validation.Dict.{Dict, get, put, values}
use grid_bot_validation.Outcome.{Result, ok, err, ◌>>=◌, ◌>>◌}
use grid_bot_validation.Decimal.{Decimals, zero_dec}
use grid_bot_validation.Decimal.Order.{IsOrdered}
use grid_bot_validation.Backtest.{OrderSide, OrderDirection, same_side}
use grid_bot_validation.Executor.{
  PlaceLimitIntent, CancelIntent, OrderResult, CancelResult, ExecState, execute_place,
  execute_cancel,
}
use grid_bot_validation.Runner.{
  TrackedStatus, TrackedOrder, GeneratedIntent, LimitOrder, Limits, StrategyRunner, RunState,
  Outside,
}
use grid_bot_validation.Runner.Orders.{
  same_order, same_flag, resting, get_limit_orders, mark, mark_cancelled, find_tracked_order,
  list_order, listed, order_dict,
}
use grid_bot_validation.Runner.Guard.{scan_orders, add_closing}
use grid_bot_validation.Runner.Keeps.{Kept, IsGood, Passes, admit-Passes}

pub unless_none :
    {A : Type 0} (b : Bool) {r : Option A} {a : A}
    → (if b then none else r) ≡ some a
    → (b ≡ false) × (r ≡ some a)
unless_none true h = absurd (cc h)
unless_none false h = (refl, h)

module _ {D : Type 0} ⦃dec : Decimals D⦄ where
  -- Two orders of one price, quantity and side, and both reduce-only or neither
  abbrev pub is_twin : PlaceLimitIntent D → PlaceLimitIntent D → Bool
  is_twin j i =
      dec.eq j.price i.price
      && dec.eq j.qty i.qty
      && same_side j.side i.side
      && same_flag j.reduce_only i.reduce_only

  abbrev pub Apart : Option (PlaceLimitIntent D) → Option (PlaceLimitIntent D) → Type 0
  Apart (some i) (some j) = is_twin j i ≡ false
  Apart _ _ = Unit {0}

  -- No order that rests is a twin of this one.
  unfoldable pub AllApart : Option (PlaceLimitIntent D) → Dict (TrackedOrder D) → Type 0
  AllApart i [] = Unit {0}
  AllApart i (e ∷ es) = Apart i (resting e.1) × AllApart i es

  -- No two orders that rest are twins.
  unfoldable pub IsDistinct : Dict (TrackedOrder D) → Type 0
  IsDistinct [] = Unit {0}
  IsDistinct (e ∷ es) = AllApart (resting e.1) es × IsDistinct es

  AllDiffer : PlaceLimitIntent D → List (LimitOrder D) → Type 0
  AllDiffer i [] = Unit {0}
  AllDiffer i (o ∷ os) = (same_order o i ≡ false) × AllDiffer i os

  scan_orders-AllDiffer :
      (i : PlaceLimitIntent D) (z sum : D) (os : List (LimitOrder D))
      → scan_orders i z os ≡ some sum
      → AllDiffer i os
  unfolding AllDiffer scan_orders
  scan_orders-AllDiffer i z sum [] h = tt
  scan_orders-AllDiffer i z sum (o ∷ os) h =
      let on = unless_none (same_order o i) h in
      (on.0, scan_orders-AllDiffer i (add_closing i z o) sum os on.1)

  AllDiffer-both :
      (i : PlaceLimitIntent D) (os ps : List (LimitOrder D))
      → AllDiffer i (os ++ ps)
      → AllDiffer i os × AllDiffer i ps
  unfolding AllDiffer
  AllDiffer-both i [] ps a = (tt, a)
  AllDiffer-both i (o ∷ os) ps (first, a) =
      let both = AllDiffer-both i os ps a in ((first, both.0), both.1)

  listed-AllDiffer :
      (i : PlaceLimitIntent D) (d : OrderDirection) (o : LimitOrder D) (ls : Limits D)
      → AllDiffer i (listed d o ls).long_orders
      → AllDiffer i (listed d o ls).short_orders
      → (same_order o i ≡ false) × AllDiffer i ls.long_orders × AllDiffer i ls.short_orders
  unfolding AllDiffer
  listed-AllDiffer i OrderDirection.long o ls (first, a) b = (first, a, b)
  listed-AllDiffer i OrderDirection.short o ls a (first, b) = (first, a, b)
  listed-AllDiffer i OrderDirection.other o ls a (first, b) = (first, a, b)

  listed-AllApart :
      (i : PlaceLimitIntent D) (t : TrackedOrder D) (r : Option (PlaceLimitIntent D))
      (ls : Limits D)
      → AllDiffer i (list_order t r ls).long_orders
      → AllDiffer i (list_order t r ls).short_orders
      → Apart (some i) r × AllDiffer i ls.long_orders × AllDiffer i ls.short_orders
  unfolding AllDiffer
  listed-AllApart i t none ls a b = (tt, a, b)
  listed-AllApart i t (some j) ls a b = listed-AllDiffer i j.direction (order_dict t j) ls a b

  limits-AllApart :
      (i : PlaceLimitIntent D) (orders : Dict (TrackedOrder D))
      → AllDiffer i (get_limit_orders (values orders)).long_orders
      → AllDiffer i (get_limit_orders (values orders)).short_orders
      → AllApart (some i) orders
  unfolding AllApart get_limit_orders
  limits-AllApart i [] a b = tt
  limits-AllApart i (e ∷ es) a b =
      let rest = listed-AllApart i e.1 (resting e.1) (get_limit_orders (values es)) a b in
      (rest.0, limits-AllApart i es rest.1 rest.2)

  -- What the guard has scanned.
  pub IsGood-AllApart :
      (i : PlaceLimitIntent D) (orders : Dict (TrackedOrder D)) (s : StrategyRunner D)
      → IsGood (get_limit_orders (values orders)) s i
      → AllApart (some i) orders
  IsGood-AllApart i orders s good =
      let ls = get_limit_orders (values orders) in
      let both = AllDiffer-both i ls.long_orders ls.short_orders (
        scan_orders-AllDiffer i zero_dec good.sum (ls.long_orders ++ ls.short_orders)
          good.scanned) in
      limits-AllApart i orders both.0 both.1

  pub AllApart-none : (orders : Dict (TrackedOrder D)) → AllApart none orders
  unfolding AllApart
  AllApart-none [] = tt
  AllApart-none (e ∷ es) = (tt, AllApart-none es)

  pub AllApart-put :
      (r : Option (PlaceLimitIntent D)) (orders : Dict (TrackedOrder D)) (key : Text)
      (t : TrackedOrder D)
      → AllApart r orders
      → Apart r (resting t)
      → AllApart r (put orders key t)
  unfolding AllApart put
  AllApart-put r [] key t a h = (h, tt)
  AllApart-put r (e ∷ es) key t a h = elim (Bool-cases (same_text e.0 key)) [
    | inl here ↦ rw here (h, a.1)
    | inr on ↦ rw on (a.0, AllApart-put r es key t a.1 h)
  ]

same_side_comm : (a b : OrderSide) → same_side a b ≡ same_side b a
same_side_comm OrderSide.buy OrderSide.buy = refl
same_side_comm OrderSide.buy OrderSide.sell = refl
same_side_comm OrderSide.buy OrderSide.other = refl
same_side_comm OrderSide.sell OrderSide.buy = refl
same_side_comm OrderSide.sell OrderSide.sell = refl
same_side_comm OrderSide.sell OrderSide.other = refl
same_side_comm OrderSide.other OrderSide.buy = refl
same_side_comm OrderSide.other OrderSide.sell = refl
same_side_comm OrderSide.other OrderSide.other = refl

same_flag_comm : (a b : Bool) → same_flag a b ≡ same_flag b a
same_flag_comm true true = refl
same_flag_comm true false = refl
same_flag_comm false true = refl
same_flag_comm false false = refl

module _ {D : Type 0} ⦃dec : Decimals D⦄ (o : IsOrdered dec) where
  eq_comm : (a b : D) → dec.eq a b ≡ dec.eq b a
  eq_comm a b = elim (Bool-cases (dec.eq a b)) [
    | inl same ↦ same ∙ sym ((o.eq_iff b a).1 (sym ((o.eq_iff a b).0 same)))
    | inr differs ↦ elim (Bool-cases (dec.eq b a)) [
      | inl same ↦ (o.eq_iff a b).1 (sym ((o.eq_iff b a).0 same)) ∙ sym same
      | inr too ↦ differs ∙ sym too
    ]
  ]

  is_twin_comm : (i j : PlaceLimitIntent D) → is_twin i j ≡ is_twin j i
  is_twin_comm i j = ground (
    arith,
    eq_comm i.price j.price,
    eq_comm i.qty j.qty,
    same_side_comm i.side j.side,
    same_flag_comm i.reduce_only j.reduce_only,
  )

  Apart-comm : (i j : Option (PlaceLimitIntent D)) → Apart i j → Apart j i
  Apart-comm none none h = tt
  Apart-comm none (some j) h = tt
  Apart-comm (some i) none h = tt
  Apart-comm (some i) (some j) h = is_twin_comm i j ∙ h

  pub IsDistinct-put :
      (orders : Dict (TrackedOrder D)) (key : Text) (t : TrackedOrder D)
      → IsDistinct orders
      → AllApart (resting t) orders
      → IsDistinct (put orders key t)
  unfolding IsDistinct AllApart put
  IsDistinct-put [] key t d a = (tt, tt)
  IsDistinct-put (e ∷ es) key t d a = elim (Bool-cases (same_text e.0 key)) [
    | inl here ↦ rw here (a.1, d.1)
    | inr on ↦ rw on (
      AllApart-put (resting e.1) es key t d.0 (Apart-comm (resting t) (resting e.1) a.0),
      IsDistinct-put es key t d.1 a.1,
    )
  ]
