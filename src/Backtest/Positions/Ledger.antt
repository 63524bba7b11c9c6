-- ===== src/Backtest/Positions/Ledger.antt =====
-- The books of a position: what apps/backtest/src/backtest/position_tracker.py counts as realized, next
-- to the money that the fills have moved.
use grid_bot_validation.Prelude.{
  ◌≡◌, refl, sym, ap, subst, ◌∙◌, inl, inr, Bool, true, false, ◌||◌, List, [], ◌∷◌, if◌then◌else◌,
  Bool-cases,
}
use grid_bot_validation.Prelude.Int.{ℤ, pos, ◌+ℤ◌, ◌-ℤ◌, int_laws}
use grid_bot_validation.Decimal.{Decimals, zero_dec, le, min_dec}
use grid_bot_validation.Engine.Types.{Direction}
use grid_bot_validation.Pnl.{calc_unrealised_pnl}
use grid_bot_validation.Backtest.{OrderSide}
use grid_bot_validation.Backtest.Positions.{
  PositionState, BacktestPositionTracker, Fill, is_opening_fill, add_to_position, reduce_position,
  charge, fill_position, process_fill,
}

-- Arithmetic without rounding, counted in whole units, but for the division: sums, differences and
-- products have their exact values.
pub record IsExact {D : Type 0} (dec : Decimals D) (value : D → ℤ) : Type 0 where
  pub value_add : (x y : D) → value (dec.add x y) ≡ value x +ℤ value y
  pub value_sub : (x y : D) → value (dec.sub x y) ≡ value x -ℤ value y
  pub value_mul_comm : (x y : D) → value (dec.mul x y) ≡ value (dec.mul y x)
  pub value_sub_mul :
      (x y z : D) → value (dec.mul (dec.sub x y) z) ≡ value (dec.mul x z) -ℤ value (dec.mul y z)
  pub value_mul_zero : (x : D) → value (dec.mul x (dec.ratio (pos 0) 1)) ≡ pos 0
  pub eq_zero : (x : D) → dec.eq x (dec.ratio (pos 0) 1) ≡ true → x ≡ dec.ratio (pos 0) 1

-- The gain of a long position, or of a short one, from an amount that it moves.
abbrev pub signed : Direction → ℤ → ℤ
signed Direction.long z = z
signed Direction.short z = pos 0 -ℤ z

no_move :
    (direction : Direction) (realized book : ℤ)
    → realized ≡ (realized +ℤ signed direction ((book -ℤ book) -ℤ pos 0)) +ℤ pos 0
no_move Direction.long realized book = omega int_laws
no_move Direction.short realized book = omega int_laws

two_steps :
    (direction : Direction) (r r' r'' b b' b'' move round moves rounds : ℤ)
    → r' ≡ (r +ℤ signed direction ((b' -ℤ b) -ℤ round)) +ℤ move
    → r'' ≡ (r' +ℤ signed direction ((b'' -ℤ b') -ℤ rounds)) +ℤ moves
    → r'' ≡ (r +ℤ signed direction ((b'' -ℤ b) -ℤ (round +ℤ rounds))) +ℤ (move +ℤ moves)
two_steps Direction.long r r' r'' b b' b'' move round moves rounds h k = rw (k, h) (omega int_laws)
two_steps Direction.short r r' r'' b b' b'' move round moves rounds h k = rw (k, h) (omega int_laws)

module _ {D : Type 0} ⦃dec : Decimals D⦄ (value : D → ℤ) where
  -- The book value of a position.
  abbrev pub book : PositionState D → ℤ
  book s = value (dec.mul s.size s.avg_entry_price)

  -- The money that a fill pays out: a purchase costs, a sale pays. A fill on the opening side of the
  -- direction moves all of its quantity, any other at most what the position holds.
  abbrev pub cash_by : Direction → OrderSide → Fill D → (size : D) → ℤ
  cash_by Direction.long OrderSide.buy f size = pos 0 -ℤ value (dec.mul f.qty f.price)
  cash_by Direction.long _ f size = value (dec.mul f.price (min_dec f.qty size))
  cash_by Direction.short OrderSide.sell f size = value (dec.mul f.qty f.price)
  cash_by Direction.short _ f size = pos 0 -ℤ value (dec.mul f.price (min_dec f.qty size))

  -- What is lost or won where the cost of a position is written as its size times an average price,
  -- a quotient that is rounded.
  abbrev pub rounding : (size cost : D) → ℤ
  rounding size cost =
      value (dec.mul size (if dec.lt zero_dec size then dec.div cost size else zero_dec))
      -ℤ value cost

  abbrev pub rounded_by : Direction → OrderSide → Fill D → PositionState D → ℤ
  rounded_by Direction.long OrderSide.buy f s =
      rounding (dec.add s.size f.qty)
        (dec.add (dec.mul s.size s.avg_entry_price) (dec.mul f.qty f.price))
  rounded_by Direction.short OrderSide.sell f s =
      rounding (dec.add s.size f.qty)
        (dec.add (dec.mul s.size s.avg_entry_price) (dec.mul f.qty f.price))
  rounded_by _ _ f s = pos 0

  abbrev is_invalid : Fill D → Bool
  is_invalid f = le f.price zero_dec || le f.qty zero_dec

  -- The sums over a run of fills, in which one that is refused moves nothing.
  unfoldable pub cash : List (Fill D) → BacktestPositionTracker D → ℤ
  cash [] t = pos 0
  cash (f ∷ fs) t =
      let later = cash fs (process_fill f t).1 in
      let now = cash_by t.direction f.side f t.state.size in
      if is_invalid f then later else now +ℤ later

  unfoldable pub rounded : List (Fill D) → BacktestPositionTracker D → ℤ
  rounded [] t = pos 0
  rounded (f ∷ fs) t =
      let later = rounded fs (process_fill f t).1 in
      let now = rounded_by t.direction f.side f t.state in
      if is_invalid f then later else now +ℤ later

module _ {D : Type 0} ⦃dec : Decimals D⦄ where
  -- The tracker after a run of fills.
  unfoldable pub after_fills : List (Fill D) → BacktestPositionTracker D → BacktestPositionTracker D
  after_fills [] t = t
  after_fills (f ∷ fs) t = after_fills fs (process_fill f t).1

module _ {D : Type 0} ⦃dec : Decimals D⦄ (value : D → ℤ) (exact : IsExact dec value) where
  -- What the sale, or the purchase, of a quantity at a price pays.
  abbrev paid : Direction → (price close : D) → ℤ
  paid Direction.long price close = value (dec.mul price close)
  paid Direction.short price close = pos 0 -ℤ value (dec.mul price close)

  paid_nothing :
      (direction : Direction) {price close : D}
      → value (dec.mul price close) ≡ pos 0
      → paid direction price close ≡ pos 0
  paid_nothing Direction.long h = h
  paid_nothing Direction.short h = rw h (omega int_laws)

  -- A reduction by a quantity at most the size.
  reduced :
      (direction : Direction) (price close : D) (s : PositionState D)
      → value (dec.add s.realized_pnl (calc_unrealised_pnl direction s.avg_entry_price price close))
        ≡ (value s.realized_pnl
            +ℤ signed direction (
                (value (dec.mul (dec.sub s.size close) s.avg_entry_price) -ℤ book value s)
                -ℤ pos 0))
          +ℤ paid direction price close
  unfolding calc_unrealised_pnl
  reduced Direction.long price close s =
      rw
        (
          exact.value_add s.realized_pnl (dec.mul (dec.sub price s.avg_entry_price) close),
          exact.value_sub_mul price s.avg_entry_price close,
          exact.value_sub_mul s.size close s.avg_entry_price,
          exact.value_mul_comm s.avg_entry_price close,
        )
        (omega int_laws)
  reduced Direction.short price close s =
      rw
        (
          exact.value_add s.realized_pnl (dec.mul (dec.sub s.avg_entry_price price) close),
          exact.value_sub_mul s.avg_entry_price price close,
          exact.value_sub_mul s.size close s.avg_entry_price,
          exact.value_mul_comm s.avg_entry_price close,
        )
        (omega int_laws)

  -- A position that is emptied has no book value at any price.
  emptied :
      (size price : D)
      → value (dec.mul size (if dec.eq size zero_dec then zero_dec else price))
        ≡ value (dec.mul size price)
  emptied size price = elim (Bool-cases (dec.eq size zero_dec)) [
    | inl empty ↦ rw empty (
        exact.value_mul_zero size
        ∙ sym (
            ap (λ z. value (dec.mul z price)) (exact.eq_zero size empty)
            ∙ exact.value_mul_comm zero_dec price
            ∙ exact.value_mul_zero price))
    | inr holds ↦ rw holds refl
  ]

  -- What holds of a fill: the state before, what has become of it, what it paid and what it rounded.
  abbrev Balances : Direction → (s s' : PositionState D) → (move round : ℤ) → Type 0
  Balances direction s s' move round =
      value s'.realized_pnl
      ≡ (value s.realized_pnl +ℤ signed direction ((book value s' -ℤ book value s) -ℤ round))
        +ℤ move

  -- What a fill that opens pays.
  abbrev cost : Direction → ℤ → ℤ
  cost Direction.long z = pos 0 -ℤ z
  cost Direction.short z = z

  -- A position that is opened or grows: its cost is what it was and what the fill costs.
  added :
      (direction : Direction) (f : Fill D) (s : PositionState D)
      → value s.realized_pnl
        ≡ (value s.realized_pnl
            +ℤ signed direction (
                (book value (add_to_position f.qty f.price s).1 -ℤ book value s)
                -ℤ rounding value
                    (dec.add s.size f.qty)
                    (dec.add (dec.mul s.size s.avg_entry_price) (dec.mul f.qty f.price))))
          +ℤ cost direction (value (dec.mul f.qty f.price))
  unfolding add_to_position
  added Direction.long f s =
      rw (exact.value_add (dec.mul s.size s.avg_entry_price) (dec.mul f.qty f.price))
        (omega int_laws)
  added Direction.short f s =
      rw (exact.value_add (dec.mul s.size s.avg_entry_price) (dec.mul f.qty f.price))
        (omega int_laws)

  -- Of an empty position a fill moves nothing.
  nothing_closed :
      (f : Fill D) (s : PositionState D)
      → le f.qty zero_dec ≡ false
      → dec.eq s.size zero_dec ≡ true
      → value (dec.mul f.price (min_dec f.qty s.size)) ≡ pos 0
  nothing_closed f s valid flat = elim (Bool-cases (dec.lt zero_dec f.qty)) [
    | inl more ↦ rw (exact.eq_zero s.size flat) (rw more (exact.value_mul_zero f.price))
    | inr none_left ↦ absurd (cc (valid, none_left))
  ]

  reduce_position-Balances :
      (direction : Direction) (f : Fill D) (s : PositionState D)
      → le f.qty zero_dec ≡ false
      → Balances direction s
          (reduce_position direction f.qty f.price s).1
          (paid direction f.price (min_dec f.qty s.size))
          (pos 0)
  unfolding reduce_position
  reduce_position-Balances direction f s valid = elim (Bool-cases (dec.eq s.size zero_dec)) [
    | inl flat ↦ rw flat (
        no_move direction (value s.realized_pnl) (book value s)
        ∙ ap
            (λ z.
              (value s.realized_pnl +ℤ signed direction ((book value s -ℤ book value s) -ℤ pos 0))
              +ℤ z)
            (sym (paid_nothing direction (nothing_closed f s valid flat))))
    | inr holds ↦
        let close = min_dec f.qty s.size in
        rw (holds, emptied (dec.sub s.size close) s.avg_entry_price)
          (reduced direction f.price close s)
  ]

  fill_position-Balances :
      (direction : Direction) (side : OrderSide) (f : Fill D) (s : PositionState D)
      → le f.qty zero_dec ≡ false
      → Balances direction s
          (fill_position (is_opening_fill direction side) direction f s).1
          (cash_by value direction side f s.size)
          (rounded_by value direction side f s)
  unfolding fill_position is_opening_fill add_to_position
  fill_position-Balances Direction.long OrderSide.buy f s valid = added Direction.long f s
  fill_position-Balances Direction.long OrderSide.sell f s valid =
      reduce_position-Balances Direction.long f s valid
  fill_position-Balances Direction.long OrderSide.other f s valid =
      reduce_position-Balances Direction.long f s valid
  fill_position-Balances Direction.short OrderSide.sell f s valid = added Direction.short f s
  fill_position-Balances Direction.short OrderSide.buy f s valid =
      reduce_position-Balances Direction.short f s valid
  fill_position-Balances Direction.short OrderSide.other f s valid =
      reduce_position-Balances Direction.short f s valid

  Balances-trans :
      (direction : Direction) (s s' s'' : PositionState D) (move round moves rounds : ℤ)
      → Balances direction s s' move round
      → Balances direction s' s'' moves rounds
      → Balances direction s s'' (move +ℤ moves) (round +ℤ rounds)
  Balances-trans direction s s' s'' move round moves rounds h k =
      two_steps direction (value s.realized_pnl) (value s'.realized_pnl) (value s''.realized_pnl)
        (book value s) (book value s') (book value s'') move round moves rounds h k

  Balances-refl :
      (direction : Direction) (s : PositionState D) → Balances direction s s (pos 0) (pos 0)
  Balances-refl direction s = no_move direction (value s.realized_pnl) (book value s)

  -- The commission changes nothing of this.
  rounded_by-charge :
      (is_opening : Bool) (direction : Direction) (side : OrderSide) (f : Fill D) (commission : D)
      (s : PositionState D)
      → rounded_by value direction side f (charge is_opening commission s)
        ≡ rounded_by value direction side f s
  unfolding charge
  rounded_by-charge is_opening Direction.long OrderSide.buy f commission s = refl
  rounded_by-charge is_opening Direction.long OrderSide.sell f commission s = refl
  rounded_by-charge is_opening Direction.long OrderSide.other f commission s = refl
  rounded_by-charge is_opening Direction.short OrderSide.buy f commission s = refl
  rounded_by-charge is_opening Direction.short OrderSide.sell f commission s = refl
  rounded_by-charge is_opening Direction.short OrderSide.other f commission s = refl

  qty_valid : (bad_price bad_qty : Bool) → (bad_price || bad_qty) ≡ false → bad_qty ≡ false
  qty_valid true q h = absurd (cc h)
  qty_valid false q h = h

  process_fill-Balances :
      (f : Fill D) (t : BacktestPositionTracker D)
      → (le f.price zero_dec || le f.qty zero_dec) ≡ false
      → Balances t.direction t.state
          (process_fill f t).1.state
          (cash_by value t.direction f.side f t.state.size)
          (rounded_by value t.direction f.side f t.state)
  unfolding process_fill charge
  process_fill-Balances f t valid =
      let is_opening = is_opening_fill t.direction f.side in
      let commission = dec.mul (dec.mul f.qty f.price) t.commission_rate in
      let charged = charge is_opening commission t.state in
      rw valid (
        subst
          (λ z.
            Balances t.direction t.state (fill_position is_opening t.direction f charged).1
              (cash_by value t.direction f.side f t.state.size) z)
          (rounded_by-charge is_opening t.direction f.side f commission t.state)
          (fill_position-Balances t.direction f.side f charged
            (qty_valid (le f.price zero_dec) (le f.qty zero_dec) valid)))

  process_fill_invalid :
      (f : Fill D) (t : BacktestPositionTracker D)
      → (le f.price zero_dec || le f.qty zero_dec) ≡ true
      → (process_fill f t).1 ≡ t
  unfolding process_fill
  process_fill_invalid f t invalid = rw invalid refl

  process_fill-direction :
      (f : Fill D) (t : BacktestPositionTracker D) → (process_fill f t).1.direction ≡ t.direction
  unfolding process_fill
  process_fill-direction f t = elim (Bool-cases (le f.price zero_dec || le f.qty zero_dec)) [
    | inl invalid ↦ rw invalid refl
    | inr valid ↦ rw valid refl
  ]

  -- The gain that a run of fills realizes, from any state, where sums, differences and products are
  -- exact. It is the money that the fills pay out, counting what a purchase costs negative, plus, for a
  -- long position, or less, for a short one, what the book value has gained apart from the rounding of
  -- the average prices. A fill on the opening side moves all of its quantity, any other at most the size
  -- of the position, and a refused fill moves nothing.
  pub realized-books :
      (fs : List (Fill D)) (t : BacktestPositionTracker D)
      → value (after_fills fs t).state.realized_pnl
        ≡ (value t.state.realized_pnl
            +ℤ signed t.direction
                ((book value (after_fills fs t).state -ℤ book value t.state) -ℤ rounded value fs t))
          +ℤ cash value fs t
  unfolding after_fills cash rounded
  realized-books [] t = Balances-refl t.direction t.state
  realized-books (f ∷ fs) t =
      let t' = (process_fill f t).1 in
      let rest : Balances t.direction t'.state (after_fills fs t').state (cash value fs t')
          (rounded value fs t') =
        subst
          (λ d.
            Balances d t'.state (after_fills fs t').state (cash value fs t') (rounded value fs t'))
          (process_fill-direction f t) (realized-books fs t') in
      elim (Bool-cases (le f.price zero_dec || le f.qty zero_dec)) [
        | inl invalid ↦ rw invalid (
            subst
              (λ u.
                Balances t.direction u.state (after_fills fs t').state (cash value fs t')
                  (rounded value fs t'))
              (process_fill_invalid f t invalid) rest)
        | inr valid ↦ rw valid (
            Balances-trans t.direction t.state t'.state (after_fills fs t').state
              (cash_by value t.direction f.side f t.state.size)
              (rounded_by value t.direction f.side f t.state) (cash value fs t')
              (rounded value fs t') (process_fill-Balances f t valid) rest)
      ]
