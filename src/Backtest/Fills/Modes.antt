-- ===== src/Backtest/Fills/Modes.antt =====
-- What the transition mode fills on: apps/backtest/src/backtest/fill_simulator.py.
use grid_bot_validation.Prelude.{
  Bool, true, false, not, ◌&&◌, ◌≡◌, refl, sym, ap, subst, ◌∙◌, ◌⊎◌, inl, inr, Bool-cases, some,
  if◌then◌else◌, arith,
}
use grid_bot_validation.Text.{Text, same_text-of}
use grid_bot_validation.Dict.{get, put}
use grid_bot_validation.Dict.Laws.{get-put_self}
use grid_bot_validation.Outcome.{ok}
use grid_bot_validation.Decimal.{Decimals, zero_dec, le}
use grid_bot_validation.Backtest.{OrderSide, TickerEvent, Market, SimulatedOrder}
use grid_bot_validation.Backtest.Fills.{
  fill_result, FillMode, MarketSnapshot, should_fill_at_limit, TradeThroughFillSimulator, Token,
  is_token, advance_market, advance_for, crossed, check_fill, to_snapshot, should_fill_mode,
  should_fill_last_cross, last_crossed,
}

-- 'Buy' or 'Sell'
abbrev pub IsSide : OrderSide → Type 0
IsSide side = (side ≡ OrderSide.buy) ⊎ (side ≡ OrderSide.sell)

module _ {D : Type 0} ⦃dec : Decimals D⦄ where
  abbrev pub token_of : Text → TickerEvent D → Token
  token_of s t = (s, t.exchange_ts, t.local_ts)

  -- A tick of the symbol with a price above zero.
  pub record IsTick (s : Text) (t : TickerEvent D) : Type 0 where
    pub of_symbol : t.symbol ≡ some s
    pub positive : le t.last_price zero_dec ≡ false

  advance_for_new :
      (sim : TradeThroughFillSimulator D) (s : Text) (t : TickerEvent D)
      → le t.last_price zero_dec ≡ false
      → is_token (get sim.tick_token s) (token_of s t) ≡ false
      → advance_for sim t (some s) ≡ record sim {
        tick_prev_last = put sim.tick_prev_last s (get sim.prev_last_price s);
        prev_last_price = put sim.prev_last_price s t.last_price;
        tick_token = put sim.tick_token s (token_of s t);
      }
  unfolding advance_for
  advance_for_new sim s t positive new = rw (positive, new) refl

  -- A tick that was taken in is not taken in again.
  advance_for_again :
      (sim : TradeThroughFillSimulator D) (s : Text) (t : TickerEvent D)
      → is_token (get sim.tick_token s) (token_of s t) ≡ true
      → advance_for sim t (some s) ≡ sim
  unfolding advance_for
  advance_for_again sim s t known = elim (Bool-cases (le t.last_price zero_dec)) [
    | inl nothing ↦ rw nothing refl
    | inr positive ↦ rw (positive, known) refl
  ]

  is_token_refl :
      (s : Text) (t : TickerEvent D) → is_token (some (token_of s t)) (token_of s t) ≡ true
  is_token_refl s t = ground (arith, same_text-of s)

  -- The mode and the three slots after two ticks.
  record AfterBoth (sim sim' : TradeThroughFillSimulator D) (s : Text) (a b : TickerEvent D)
      : Type 0 where
    same_mode : sim'.mode ≡ sim.mode
    read_slot : get sim'.tick_prev_last s ≡ some (some a.last_price)
    token : get sim'.tick_token s ≡ some (token_of s b)

  after_both :
      (sim : TradeThroughFillSimulator D) (s : Text) (a b : TickerEvent D)
      → IsTick s a
      → IsTick s b
      → is_token (get sim.tick_token s) (token_of s a) ≡ false
      → is_token (some (token_of s a)) (token_of s b) ≡ false
      → AfterBoth sim (advance_market (advance_market sim a) b) s a b
  after_both sim s a b tick_a tick_b new_a new_b =
      let sim' : TradeThroughFillSimulator D = record sim {
        tick_prev_last = put sim.tick_prev_last s (get sim.prev_last_price s);
        prev_last_price = put sim.prev_last_price s a.last_price;
        tick_token = put sim.tick_token s (token_of s a);
      } in
      let first : advance_market sim a ≡ sim' =
        ap (advance_for sim a) tick_a.of_symbol ∙ advance_for_new sim s a tick_a.positive new_a in
      let kept = get-put_self sim.tick_token s (token_of s a) in
      let second =
        ap (λ x. advance_for x b b.symbol) first
        ∙ ap (advance_for sim' b) tick_b.of_symbol
        ∙ advance_for_new sim' s b tick_b.positive
            (subst (λ x. is_token x (token_of s b) ≡ false) (sym kept) new_b) in
      record {
        same_mode = ap (λ x. x.mode) second;
        read_slot =
            ap (λ x. get x.tick_prev_last s) second
            ∙ get-put_self sim'.tick_prev_last s (get sim'.prev_last_price s)
            ∙ ap some (get-put_self sim.prev_last_price s a.last_price);
        token = ap (λ x. get x.tick_token s) second ∙ get-put_self sim'.tick_token s (token_of s b);
      }

  abbrev pub transition : OrderSide → (limit_price before now : D) → Bool
  transition side limit_price before now =
      should_fill_at_limit side limit_price now
      && not (should_fill_at_limit side limit_price before)

  crossed-transition :
      (side : OrderSide) (limit_price before now : D)
      → le before zero_dec ≡ false
      → le now zero_dec ≡ false
      → crossed side limit_price now before ≡ transition side limit_price before now
  unfolding should_fill_at_limit
  crossed-transition OrderSide.buy limit_price before now h k = ground arith
  crossed-transition OrderSide.sell limit_price before now h k = ground arith
  crossed-transition OrderSide.other limit_price before now h k = ground arith

  last_crossed_at :
      (sim : TradeThroughFillSimulator D) (side : OrderSide) (limit_price now before : D) (s : Text)
      → le now zero_dec ≡ false
      → get sim.tick_prev_last s ≡ some (some before)
      → last_crossed sim side limit_price now (some s) ≡ crossed side limit_price now before
  unfolding last_crossed
  last_crossed_at sim side limit_price now before s positive slot = rw (positive, slot) refl

  last_cross-result :
      (m : FillMode) (sim : TradeThroughFillSimulator D) (side : OrderSide) (limit_price : D)
      (snapshot : MarketSnapshot D)
      → m ≡ FillMode.last_cross
      → IsSide side
      → should_fill_mode m sim side limit_price snapshot
        ≡ ok (last_crossed sim side limit_price snapshot.last_price snapshot.symbol)
  unfolding should_fill_mode should_fill_last_cross
  last_cross-result m sim side limit_price snapshot is_last is_side = elim is_side [
    | inl is_buy ↦ rw (is_last, is_buy) refl
    | inr is_sell ↦ rw (is_last, is_sell) refl
  ]

  -- In the transition mode, after two ticks of one symbol with prices above zero and different time
  -- stamps, of which the first is not the tick that the simulator took in last, a 'Buy' or 'Sell' order
  -- fills at its limit price exactly if the mode that includes touches would fill it at the second
  -- price and would not have filled it at the first. To hand in the second tick again changes nothing.
  pub check_fill-transition :
      (sim : TradeThroughFillSimulator D) (s : Text) (a b : TickerEvent D)
      (order : SimulatedOrder D)
      → sim.mode ≡ FillMode.last_cross
      → IsTick s a
      → IsTick s b
      → is_token (get sim.tick_token s) (token_of s a) ≡ false
      → is_token (some (token_of s a)) (token_of s b) ≡ false
      → IsSide order.side
      → let sim' = advance_market (advance_market sim a) b in
        let fills = transition order.side order.price a.last_price b.last_price in
        (check_fill sim' order (Market.ticker b)
          ≡ ok (record {
            should_fill = fills;
            fill_price = if fills then order.price else zero_dec;
          }))
        × (advance_market sim' b ≡ sim')
  unfolding to_snapshot fill_result
  check_fill-transition sim s a b order mode tick_a tick_b new_a new_b is_side =
      let sim' = advance_market (advance_market sim a) b in
      let after = after_both sim s a b tick_a tick_b new_a new_b in
      let snapshot = to_snapshot (Market.ticker b) in
      let answer =
        last_cross-result sim'.mode sim' order.side order.price snapshot (after.same_mode ∙ mode)
          is_side
        ∙ ap (λ x. ok (last_crossed sim' order.side order.price b.last_price x)) tick_b.of_symbol
        ∙ ap ok (
            last_crossed_at sim' order.side order.price b.last_price a.last_price s tick_b.positive
              after.read_slot)
        ∙ ap ok (
            crossed-transition order.side order.price a.last_price b.last_price tick_a.positive
              tick_b.positive) in
      (
        ap (fill_result order) answer,
        ap (advance_for sim' b) tick_b.of_symbol
            ∙ advance_for_again sim' s b
                (ap (λ x. is_token x (token_of s b)) after.token ∙ is_token_refl s b),
      )
