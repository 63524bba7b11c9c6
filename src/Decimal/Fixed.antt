-- ===== src/Decimal/Fixed.antt =====
-- A number type to run the definitions on and to meet the hypotheses with: fixed-point numbers of
-- six decimals that truncate, and infinity. It stands in no statement about the code.
use grid_bot_validation.Prelude.{
  ℕ, suc, ◌*◌, ◌/◌, ◌≡◌, ◌↔◌, refl, Bool, true, false, ◌&&◌, Option, none, some, arith,
}
use grid_bot_validation.Prelude.Int.{ℤ, pos, negsuc, sub_ℕ, ◌+ℤ◌, ◌-ℤ◌, ltb_ℤ, leb_ℤ, eq_of_parts}
use grid_bot_validation.Float.Fixed.{one, times, over}
use grid_bot_validation.Decimal.{Decimals}
use grid_bot_validation.Decimal.Order.{IsOrdered}

-- `none` is infinity.
abbrev pub FixedDec : Type 0
FixedDec = Option ℤ

abbrev both : (ℤ → ℤ → ℤ) → FixedDec → FixedDec → FixedDec
both f (some a) (some b) = some (f a b)
both f _ _ = none

abbrev less : FixedDec → FixedDec → Bool
less (some a) (some b) = ltb_ℤ a b
less (some a) none = true
less none _ = false

abbrev same : FixedDec → FixedDec → Bool
same (some a) (some b) = leb_ℤ a b && leb_ℤ b a
same none none = true
same _ _ = false

abbrev quotient : ℤ → ℕ → ℤ
quotient (pos a) d = pos (a * one / d)
quotient (negsuc a) d = sub_ℕ 0 (suc a * one / d)

instance abbrev pub fixed_decimals : Decimals FixedDec
fixed_decimals = record {
  lt = less;
  eq = same;
  ratio = λ a d. some (quotient a d);
  infinity = none;
  add = both ◌+ℤ◌;
  sub = both ◌-ℤ◌;
  mul = both times;
  div = both over;
}

-- n tenths
abbrev pub dec_tenths : ℕ → FixedDec
dec_tenths n = some (pos (n * 100_000))

less_irrefl : (x : FixedDec) → less x x ≡ false
less_irrefl none = refl
less_irrefl (some a) = ground arith

less_trans : (x y z : FixedDec) → less x y ≡ true → less y z ≡ true → less x z ≡ true
less_trans none y z h k = cc
less_trans (some a) none z h k = cc
less_trans (some a) (some b) none h k = refl
less_trans (some a) (some b) (some c) h k = ground arith

eq_of_not_less : (x y : FixedDec) → less x y ≡ false → less y x ≡ false → x ≡ y
eq_of_not_less none none h k = refl
eq_of_not_less none (some b) h k = cc
eq_of_not_less (some a) none h k = cc
eq_of_not_less (some a) (some b) h k = ground (arith, eq_of_parts a b)

same_iff : (x y : FixedDec) → (same x y ≡ true) ↔ (x ≡ y)
same_iff none none = ground arith
same_iff none (some b) = ground arith
same_iff (some a) none = ground arith
same_iff (some a) (some b) = ground (arith, eq_of_parts a b)

pub fixed_dec-IsOrdered : IsOrdered fixed_decimals
fixed_dec-IsOrdered = record {
  lt_irrefl = less_irrefl;
  lt_trans = less_trans;
  eq_of_not_lt = eq_of_not_less;
  eq_iff = same_iff;
  not_infinity_lt = λ x. refl;
}
