-- ===== src/Backtest/Orders/Change.antt =====
-- A book with one order more or less: apps/backtest/src/backtest/order_manager.py.
use grid_bot_validation.Prelude.{
  ℕ, ◌≤◌, ◌<◌, ◌≡◌, ◌≢◌, sym, ap, subst, ◌∙◌, inl, inr, true, false, none, List, [], ◌∷◌, ◌++◌,
  arith,
}
use grid_bot_validation.Text.{Text, same_text, same_text-of, same_text-cases}
use grid_bot_validation.Dict.{Dict, get, pop, contains, include, discard}
use grid_bot_validation.Dict.Laws.{
  same_text-ne, contains-include_self, contains-include_ne, contains-discard_self,
  contains-discard_ne,
}
use grid_bot_validation.Backtest.{SimulatedOrder}
use grid_bot_validation.Backtest.Fills.Modes.{IsSide}
use grid_bot_validation.Backtest.Orders.{BacktestOrderManager, sim_id, activate, deactivate}
use grid_bot_validation.Backtest.Orders.Book.{
  has_client, IsKeyed, IsBook, get-append_none, get_parts, has_client-append, put_new, pop_at, IsAt,
  IsKeyed-split, IsKeyed-add,
}

module _ {D : Type 0} where
  known_add :
      (ids : List Text) (d : Dict (SimulatedOrder D)) (key : Text) (o : SimulatedOrder D)
      (id : Text)
      → contains ids id ≡ has_client id d
      → contains (include ids o.client_order_id) id ≡ has_client id (d ++ (key, o) ∷ [])
  unfolding has_client
  known_add ids d key o id h =
      let c = o.client_order_id in
      elim (same_text-cases c id) [
        | inl same ↦
            let found =
              subst (λ k. contains (include ids c) k ≡ true) same (contains-include_self ids c) in
            let here = subst (λ k. same_text c k ≡ true) same (same_text-of c) in
            ground (arith, found, here, has_client-append id d ((key, o) ∷ []))
        | inr other ↦ ground (
          arith,
          h,
          other,
          contains-include_ne ids c id other,
          has_client-append id d ((key, o) ∷ []),
        )
      ]

  get_one :
      (key : Text) (o : SimulatedOrder D) (other : Text)
      → key ≢ other
      → get ((key, o) ∷ []) other ≡ none
  unfolding get
  get_one key o other h = ground (arith, same_text-ne key other h)

  known_remove :
      (ids : List Text) (kept : Dict (SimulatedOrder D)) (e : Text × SimulatedOrder D)
      (es : Dict (SimulatedOrder D)) (id : Text)
      → IsAt kept e es
      → contains ids id ≡ has_client id (kept ++ e ∷ es)
      → contains (discard ids e.1.client_order_id) id ≡ has_client id (kept ++ es)
  unfolding has_client IsKeyed
  known_remove ids kept e es id at h =
      let c = e.1.client_order_id in
      elim (same_text-cases c id) [
        | inl same ↦
            let gone : contains (discard ids c) c ≡ has_client c (kept ++ es) = ground (
              arith,
              contains-discard_self ids c,
              has_client-append c kept es,
              at.not_client_before,
              at.entry.3,
            ) in
            subst (λ k. contains (discard ids c) k ≡ has_client k (kept ++ es)) same gone
        | inr other ↦ ground (
          arith,
          h,
          other,
          contains-discard_ne ids c id other,
          has_client-append id kept (e ∷ es),
          has_client-append id kept es,
        )
      ]

  get_remove :
      (kept : Dict (SimulatedOrder D)) (e : Text × SimulatedOrder D) (es : Dict (SimulatedOrder D))
      (key : Text)
      → get (kept ++ e ∷ es) key ≡ none
      → get (kept ++ es) key ≡ none
  unfolding get
  get_remove kept e es key h =
      let (before, from) = get_parts kept (e ∷ es) key h in
      let after : get es key ≡ none = ground (arith, from) in
      get-append_none kept es key before after

  -- A book with one more order.
  pub IsBook-add :
      (m : BacktestOrderManager D) (key : Text) (o : SimulatedOrder D) (counter : ℕ)
      → IsBook m
      → get m.active_orders key ≡ none
      → has_client o.client_order_id m.active_orders ≡ false
      → o.order_id ≡ key
      → IsSide o.side
      → m.order_counter ≤ counter
      → ((n : ℕ) → counter < n → sim_id n ≢ key)
      → IsBook (activate key o (record m { order_counter = counter }))
  unfolding has_client get
  IsBook-add m key o counter book new new_client own side grows apart =
      let d = m.active_orders in
      let added = sym (put_new d key o new) in
      record {
        keyed = subst IsKeyed added (IsKeyed-add d key o book.keyed new new_client own side);
        known = λ id.
            subst
              (λ x. contains (include m.client_order_ids o.client_order_id) id ≡ has_client id x)
              added (known_add m.client_order_ids d key o id (book.known id));
        unused = λ n h.
            subst (λ x. get x (sim_id n) ≡ none) added
              (get-append_none d ((key, o) ∷ []) (sim_id n) (book.unused n (omega arith))
                (get_one key o (sim_id n) (λ q. apart n h (sym q))));
      }

  -- A book with one order less.
  pub IsBook-remove :
      (m : BacktestOrderManager D) (kept : Dict (SimulatedOrder D)) (e : Text × SimulatedOrder D)
      (es : Dict (SimulatedOrder D))
      → IsBook m
      → m.active_orders ≡ kept ++ e ∷ es
      → IsBook (deactivate e.0 e.1 m) × (pop m.active_orders e.0 ≡ kept ++ es)
  IsBook-remove m kept e es book parts =
      let at = IsKeyed-split kept e es (subst IsKeyed parts book.keyed) in
      let gone = ap (λ d. pop d e.0) parts ∙ pop_at kept e es at.not_before in
      (
        record {
          keyed = subst IsKeyed (sym gone) at.without_it;
          known = λ id.
              subst
                (λ x.
                  contains (discard m.client_order_ids e.1.client_order_id) id ≡ has_client id x)
                (sym gone)
                (known_remove m.client_order_ids kept e es id at
                  (book.known id ∙ ap (has_client id) parts));
          unused = λ n h.
              subst (λ x. get x (sim_id n) ≡ none) (sym gone)
                (get_remove kept e es (sim_id n)
                  (subst (λ x. get x (sim_id n) ≡ none) parts (book.unused n h)));
        },
        gone,
      )
