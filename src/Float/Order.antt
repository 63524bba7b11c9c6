-- ===== src/Float/Order.antt =====
-- The laws of the comparisons of floats: a total order in which `==` is equality, and -inf is
-- below nothing.
use grid_bot_validation.Prelude.{◌≡◌, true, false, not, ◌↔◌, inl, inr, Bool-cases}
use grid_bot_validation.Prelude.Int.{pos}
use grid_bot_validation.Float.{Floats}

pub record IsOrdered {F : Type 0} (fl : Floats F) : Type 0 where
  pub lt_irrefl : (x : F) → fl.lt x x ≡ false
  pub lt_trans : (x y z : F) → fl.lt x y ≡ true → fl.lt y z ≡ true → fl.lt x z ≡ true
  pub eq_of_not_lt : (x y : F) → fl.lt x y ≡ false → fl.lt y x ≡ false → x ≡ y
  pub le-eq-not-lt : (x y : F) → fl.le x y ≡ not (fl.lt y x)
  pub eq_iff : (x y : F) → (fl.eq x y ≡ true) ↔ (x ≡ y)
  pub neg_inf_least : (x : F) → fl.lt x fl.neg_inf ≡ false
  pub neg_inf_negative : fl.lt fl.neg_inf (fl.ratio (pos 0) 1) ≡ true

module _ {F : Type 0} {fl : Floats F} (o : IsOrdered fl) where
  pub lt_asymm : (x y : F) → fl.lt x y ≡ true → fl.lt y x ≡ false
  lt_asymm x y h = elim (Bool-cases (fl.lt y x)) [
    | inl back ↦ absurd (cc (o.lt_trans x y x h back, o.lt_irrefl x))
    | inr ok ↦ ok
  ]

  -- `x ≤ y` and `y < z` give `x < z`.
  pub lt_of_le_lt : (x y z : F) → fl.lt y x ≡ false → fl.lt y z ≡ true → fl.lt x z ≡ true
  lt_of_le_lt x y z h k = elim (Bool-cases (fl.lt x y)) [
    | inl less ↦ o.lt_trans x y z less k
    | inr same ↦ rw (o.eq_of_not_lt x y same h) k
  ]

  pub lt_of_lt_le : (x y z : F) → fl.lt x y ≡ true → fl.lt z y ≡ false → fl.lt x z ≡ true
  lt_of_lt_le x y z h k = elim (Bool-cases (fl.lt y z)) [
    | inl less ↦ o.lt_trans x y z h less
    | inr same ↦ rw (← o.eq_of_not_lt y z same k) h
  ]

  pub not_lt_trans : (x y z : F) → fl.lt y x ≡ false → fl.lt z y ≡ false → fl.lt z x ≡ false
  not_lt_trans x y z h k = elim (Bool-cases (fl.lt z x)) [
    | inl less ↦ absurd (cc (lt_of_lt_le z x y less h))
    | inr done ↦ done
  ]
