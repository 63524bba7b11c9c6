-- ===== src/Engine/Pending.antt =====
-- A fill that comes before the first price: `_handle_execution_event` and the consumption of the fill in
-- `_handle_ticker_event_body` of packages/gridcore/src/gridcore/engine.py.
use grid_bot_validation.Prelude.{
  ℕ, ◌≡◌, refl, sym, ap, ◌∙◌, ◌==◌, inl, inr, true, false, Option, none, some, List, ◌++◌, length,
  arith, Bool-cases,
}
use grid_bot_validation.Float.{Floats, int}
use grid_bot_validation.Outcome.{ok, Action, ◌>>=◌, ◌>>◌, pure, Result-cases, bind_inversion}
use grid_bot_validation.Grid.Level.{Grid, notify_change}
use grid_bot_validation.Grid.Build.{build_grid}
use grid_bot_validation.Grid.Build.Shape.{length-built_levels}
use grid_bot_validation.Grid.Check.{bounds}
use grid_bot_validation.Grid.Update.{update_grid}
use grid_bot_validation.Engine.Types.{Direction, Limit, LimitOrders, Intent, Event, Engine}
use grid_bot_validation.Engine.Handle.{
  on_grid, set_exchange_ts, ensure_grid, consume_fill, check_and_place, ticker_body, on_event,
  handle_ticker_event, or_none, may_consume, build_price, in_range,
}

module _ {F : Type 0} ⦃fl : Floats F⦄ where
  -- What a call that returns leaves of the flag: nothing is pending after it.
  consume_fill-clears :
      (e : Engine F)
      → may_consume e ≡ e.fill_pending
      → (consume_fill e).0 ≡ ok tt
      → (consume_fill e).1.fill_pending ≡ false
  unfolding consume_fill
  consume_fill-clears e due h = elim (Bool-cases (may_consume e)) [
    | inl due' ↦ elim (Result-cases (on_grid (update_grid e.last_filled_price e.last_close) e).0) [
      | inl (x, failed) ↦ absurd (ground (arith, failed))
      | inr (a, done) ↦ rw (due', done, ◌>>=◌) refl
    ]
    | inr idle ↦ rw idle (sym due ∙ idle)
  ]

  check_and_place-pending :
      (d : Direction) (limits : List (Limit F)) (e : Engine F)
      → (check_and_place d limits e).1.fill_pending ≡ e.fill_pending
  unfolding check_and_place
  check_and_place-pending d limits e = ground arith

  build_grid-nonempty :
      (p : F) (g : Grid F)
      → fl.eq p (int 0) ≡ false
      → (build_grid p g).0 ≡ ok tt
      → (length (build_grid p g).1.levels == 0) ≡ false
  unfolding build_grid notify_change
  build_grid-nonempty p g priced h = ground (arith, length-built_levels g p)

  build_price-priced :
      (anchor : Option F) (p : F)
      → fl.eq p (int 0) ≡ false
      → fl.eq (build_price anchor p) (int 0) ≡ false
  build_price-priced none p h = h
  build_price-priced (some a) p h = elim (Bool-cases (fl.eq a (int 0))) [
    | inl zero_anchor ↦ rw zero_anchor h
    | inr anchored ↦ rw anchored anchored
  ]

  -- Where the first part of the ticker handler returns, there is a grid, and no fill is touched.
  ensure_grid-nonempty :
      (p : F) (e : Engine F)
      → fl.eq p (int 0) ≡ false
      → (ensure_grid p e).0 ≡ ok tt
      → ((length (ensure_grid p e).1.grid.levels == 0) ≡ false)
        × ((ensure_grid p e).1.fill_pending ≡ e.fill_pending)
        × ((ensure_grid p e).1.last_filled_price ≡ e.last_filled_price)
  unfolding ensure_grid
  ensure_grid-nonempty p e priced h = elim (Bool-cases (length e.grid.levels == 0)) [
    | inl empty ↦
        let price = build_price e.anchor_price p in
        let built : (build_grid price e.grid).0 ≡ ok tt = ground arith in
        rw empty (
          build_grid-nonempty price e.grid (build_price-priced e.anchor_price p priced) built,
          refl,
          refl,
        )
    | inr filled ↦ elim (Result-cases (bounds e.grid.levels)) [
      | inl (x, failed) ↦ absurd (ground arith)
      | inr (range, known) ↦ elim (Bool-cases (in_range range p)) [
        | inl inside ↦ rw (filled, known, inside) (filled, refl, refl)
        | inr outside ↦
            let built : (build_grid p e.grid).0 ≡ ok tt = ground arith in
            rw (filled, known, outside) (build_grid-nonempty p e.grid priced built, refl, refl)
      ]
    ]
  ]

  bind-pending :
      {A B : Type 0} (m : Action (Engine F) A) (f : A → Action (Engine F) B)
      → ((e : Engine F) → (m e).1.fill_pending ≡ e.fill_pending)
      → ((a : A) (e : Engine F) → (f a e).1.fill_pending ≡ e.fill_pending)
      → (e : Engine F) → ((m >>= f) e).1.fill_pending ≡ e.fill_pending
  bind-pending m f p q e = elim (Result-cases (m e).0) [
    | inl (x, failed) ↦ rw (failed, ◌>>=◌) (p e)
    | inr (a, done) ↦ rw (done, ◌>>=◌) (q a (m e).1 ∙ p e)
  ]

  -- A fill that waits for the first price has its price on record.
  abbrev pub IsAnnounced : Engine F → Type 0
  IsAnnounced e = e.fill_pending ≡ true → (q : F) × (e.last_filled_price ≡ some q)

  may_consume-due :
      (e : Engine F)
      → IsAnnounced e
      → (length e.grid.levels == 0) ≡ false
      → may_consume e ≡ e.fill_pending
  may_consume-due e announced filled = elim (Bool-cases e.fill_pending) [
    | inl waits ↦ let (q, known) = announced waits in ground (arith, known)
    | inr idle ↦ ground arith
  ]

  ticker_body-clears :
      (p : F) (orders : LimitOrders F) (e : Engine F) {is : List (Intent F)}
      → fl.eq p (int 0) ≡ false
      → IsAnnounced e
      → (ticker_body p orders e).0 ≡ ok is
      → (ticker_body p orders e).1.fill_pending ≡ false
  unfolding ticker_body
  ticker_body-clears p orders e {is} priced announced h =
      let long_round = check_and_place Direction.long orders.long_orders in
      let short_round = check_and_place Direction.short orders.short_orders in
      let both : Action (Engine F) (List (Intent F)) =
        long_round >>= λ is'. short_round >>= λ js. pure (is' ++ js) in
      let start : Engine F = record e { last_close = some p } in
      let (a, ensured, rest) = bind_inversion (ensure_grid p) (λ _. consume_fill >> both) start h in
      let built = (ensure_grid p start).1 in
      let (filled, same, same_price) = ensure_grid-nonempty p start priced ensured in
      let (b, consumed, last) =
        bind_inversion consume_fill (λ _. both) built (sym (ap (λ x. x.0) rest) ∙ h) in
      let applied = (consume_fill built).1 in
      let cleared : applied.fill_pending ≡ false =
        consume_fill-clears built
          (may_consume-due built
            (λ waits. let (q, known) = announced (sym same ∙ waits) in (q, same_price ∙ known))
            filled)
          consumed in
      ap (λ x. x.1.fill_pending) (rest ∙ last)
      ∙ bind-pending long_round (λ is'. short_round >>= λ js. pure (is' ++ js))
          (check_and_place-pending Direction.long orders.long_orders)
          (λ is'.
            bind-pending short_round (λ js. pure (is' ++ js))
              (check_and_place-pending Direction.short orders.short_orders) (λ js e'. refl))
          applied
      ∙ cleared

  -- Once a ticker event with a price other than 0 has been handled without an exception, no fill is
  -- pending any more, if the price of a pending fill was on record.
  pub on_event-clears_pending :
      (p : F) (ts : ℕ) (orders : Option (LimitOrders F)) (e : Engine F) {is : List (Intent F)}
      → fl.eq p (int 0) ≡ false
      → IsAnnounced e
      → (on_event (Event.ticker p ts) orders e).0 ≡ ok is
      → (on_event (Event.ticker p ts) orders e).1.fill_pending ≡ false
  unfolding on_event handle_ticker_event
  on_event-clears_pending p ts orders e priced announced h =
      ticker_body-clears p (or_none orders) (set_exchange_ts (some ts) e) priced announced h
