-- ===== src/Decimal/Order.antt =====
-- The laws of the comparisons of decimals: a total order in which `==` is equality.
use grid_bot_validation.Prelude.{◌≡◌, true, false, ◌↔◌, inl, inr, Bool-cases}
use grid_bot_validation.Decimal.{Decimals}

pub record IsOrdered {D : Type 0} (dec : Decimals D) : Type 0 where
  pub lt_irrefl : (x : D) → dec.lt x x ≡ false
  pub lt_trans : (x y z : D) → dec.lt x y ≡ true → dec.lt y z ≡ true → dec.lt x z ≡ true
  pub eq_of_not_lt : (x y : D) → dec.lt x y ≡ false → dec.lt y x ≡ false → x ≡ y
  pub eq_iff : (x y : D) → (dec.eq x y ≡ true) ↔ (x ≡ y)
  pub not_infinity_lt : (x : D) → dec.lt dec.infinity x ≡ false

module _ {D : Type 0} {dec : Decimals D} (o : IsOrdered dec) where
  pub lt_asymm : (x y : D) → dec.lt x y ≡ true → dec.lt y x ≡ false
  lt_asymm x y h = elim (Bool-cases (dec.lt y x)) [
    | inl back ↦ absurd (cc (o.lt_trans x y x h back, o.lt_irrefl x))
    | inr ok ↦ ok
  ]

  -- `x ≤ y` and `y < z` give `x < z`.
  pub lt_of_le_lt : (x y z : D) → dec.lt y x ≡ false → dec.lt y z ≡ true → dec.lt x z ≡ true
  lt_of_le_lt x y z h k = elim (Bool-cases (dec.lt x y)) [
    | inl less ↦ o.lt_trans x y z less k
    | inr same ↦ rw (o.eq_of_not_lt x y same h) k
  ]

  pub lt_of_lt_le : (x y z : D) → dec.lt x y ≡ true → dec.lt z y ≡ false → dec.lt x z ≡ true
  lt_of_lt_le x y z h k = elim (Bool-cases (dec.lt y z)) [
    | inl less ↦ o.lt_trans x y z h less
    | inr same ↦ rw (← o.eq_of_not_lt y z same k) h
  ]

  pub not_lt_trans : (x y z : D) → dec.lt y x ≡ false → dec.lt z y ≡ false → dec.lt z x ≡ false
  not_lt_trans x y z h k = elim (Bool-cases (dec.lt z x)) [
    | inl less ↦ absurd (cc (lt_of_lt_le z x y less h))
    | inr done ↦ done
  ]
