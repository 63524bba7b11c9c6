-- ===== src/Float/Fixed.antt =====
-- A number type to run the definitions on and to meet the hypotheses with: fixed-point numbers of
-- six decimals that truncate, and -inf. It stands in no statement about the code.
use grid_bot_validation.Prelude.{
  ℕ, suc, ◌+◌, ◌*◌, ◌/◌, ◌≡◌, ◌↔◌, refl, Bool, true, false, not, ◌&&◌, Option, none, some, arith,
}
use grid_bot_validation.Prelude.Int.{
  ℤ, pos, negsuc, pos_part, neg_part, sub_ℕ, ◌+ℤ◌, ◌-ℤ◌, ltb_ℤ, leb_ℤ, eq_of_parts,
}
use grid_bot_validation.Float.{Floats}
use grid_bot_validation.Float.Order.{IsOrdered}

-- One in these units.
abbrev pub one : ℕ
one = 1_000_000

-- `none` is -inf.
abbrev pub Fixed : Type 0
Fixed = Option ℤ

abbrev minus : ℕ → ℤ
minus n = sub_ℕ 0 n

abbrev pub times : ℤ → ℤ → ℤ
times (pos a) (pos b) = pos (a * b / one)
times (pos a) (negsuc b) = minus (a * suc b / one)
times (negsuc a) (pos b) = minus (suc a * b / one)
times (negsuc a) (negsuc b) = pos (suc a * suc b / one)

abbrev pub over : ℤ → ℤ → ℤ
over (pos a) (pos b) = pos (a * one / b)
over (pos a) (negsuc b) = minus (a * one / suc b)
over (negsuc a) (pos b) = minus (suc a * one / b)
over (negsuc a) (negsuc b) = pos (suc a * one / suc b)

abbrev nearest : ℕ → ℕ
nearest n = (n + 500_000) / one * one

abbrev pub rounded : ℤ → ℤ
rounded (pos n) = pos (nearest n)
rounded (negsuc n) = minus (nearest (suc n))

abbrev both : (ℤ → ℤ → ℤ) → Fixed → Fixed → Fixed
both f (some a) (some b) = some (f a b)
both f _ _ = none

abbrev each : (ℤ → ℤ) → Fixed → Fixed
each f (some a) = some (f a)
each f none = none

abbrev less : Fixed → Fixed → Bool
less (some a) (some b) = ltb_ℤ a b
less none (some b) = true
less _ none = false

abbrev same : Fixed → Fixed → Bool
same (some a) (some b) = leb_ℤ a b && leb_ℤ b a
same none none = true
same _ _ = false

abbrev quotient : ℤ → ℕ → ℤ
quotient (pos a) d = pos (a * one / d)
quotient (negsuc a) d = minus (suc a * one / d)

instance abbrev pub fixed_floats : Floats Fixed
fixed_floats = record {
  lt = less;
  le = λ a b. not (less b a);
  eq = same;
  ratio = λ a d. some (quotient a d);
  neg_inf = none;
  add = both ◌+ℤ◌;
  sub = both ◌-ℤ◌;
  mul = both times;
  div = both over;
  abs = each (λ a. pos (pos_part a + neg_part a));
  round_int = each rounded;
  format10 = λ x. x;
  round8 = λ x. x;
}

less_irrefl : (x : Fixed) → less x x ≡ false
less_irrefl none = refl
less_irrefl (some a) = ground arith

less_trans : (x y z : Fixed) → less x y ≡ true → less y z ≡ true → less x z ≡ true
less_trans none none z h k = cc
less_trans none (some b) none h k = cc
less_trans none (some b) (some c) h k = refl
less_trans (some a) none z h k = cc
less_trans (some a) (some b) none h k = cc
less_trans (some a) (some b) (some c) h k = ground arith

eq_of_not_less : (x y : Fixed) → less x y ≡ false → less y x ≡ false → x ≡ y
eq_of_not_less none none h k = refl
eq_of_not_less none (some b) h k = cc
eq_of_not_less (some a) none h k = cc
eq_of_not_less (some a) (some b) h k = ground (arith, eq_of_parts a b)

same_iff : (x y : Fixed) → (same x y ≡ true) ↔ (x ≡ y)
same_iff none none = ground arith
same_iff none (some b) = ground arith
same_iff (some a) none = ground arith
same_iff (some a) (some b) = ground (arith, eq_of_parts a b)

not_less-none : (x : Fixed) → less x none ≡ false
not_less-none none = refl
not_less-none (some a) = refl

pub fixed-IsOrdered : IsOrdered fixed_floats
fixed-IsOrdered = record {
  lt_irrefl = less_irrefl;
  lt_trans = less_trans;
  eq_of_not_lt = eq_of_not_less;
  le-eq-not-lt = λ x y. refl;
  eq_iff = same_iff;
  neg_inf_least = not_less-none;
  neg_inf_negative = refl;
}
