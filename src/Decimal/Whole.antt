-- ===== src/Decimal/Whole.antt =====
-- A number type whose sums, differences and products are exact: the integers, with a division that
-- truncates. It has no infinity, for which 0 stands. It stands in no statement about the code.
use grid_bot_validation.Prelude.{ℕ, suc, ◌+◌, ◌*◌, ◌/◌, ◌≡◌, ap, ◌&&◌, arith}
use grid_bot_validation.Prelude.Int.{
  ℤ, pos, negsuc, pos_part, neg_part, sub_ℕ, ◌+ℤ◌, ◌-ℤ◌, ◌*ℤ◌, ltb_ℤ, leb_ℤ, eq_of_parts, -ℤ_parts,
  int_laws,
}
use grid_bot_validation.Decimal.{Decimals}

abbrev divided : ℤ → ℕ → ℤ
divided (pos a) d = pos (a / d)
divided (negsuc a) d = sub_ℕ 0 (suc a / d)

abbrev over : ℤ → ℤ → ℤ
over a (pos d) = divided a d
over a (negsuc d) = pos 0 -ℤ divided a (suc d)

instance abbrev pub whole_decimals : Decimals ℤ
whole_decimals = record {
  lt = ltb_ℤ;
  eq = λ a b. leb_ℤ a b && leb_ℤ b a;
  ratio = divided;
  infinity = pos 0;
  add = ◌+ℤ◌;
  sub = ◌-ℤ◌;
  mul = ◌*ℤ◌;
  div = over;
}

*ℤ_parts :
    (a b : ℤ)
    → pos_part (a *ℤ b) + pos_part a * neg_part b + neg_part a * pos_part b
      ≡ neg_part (a *ℤ b) + pos_part a * pos_part b + neg_part a * neg_part b
unfolding ◌*ℤ◌
*ℤ_parts a b = ground arith

pub sub_mul : (x y z : ℤ) → (x -ℤ y) *ℤ z ≡ (x *ℤ z) -ℤ (y *ℤ z)
sub_mul x y z =
    let parts = -ℤ_parts x y in
    let by_pos = ap (λ n. n * pos_part z) parts in
    let by_neg = ap (λ n. n * neg_part z) parts in
    eq_of_parts ((x -ℤ y) *ℤ z) ((x *ℤ z) -ℤ (y *ℤ z)) (
      omega (
        arith,
        by_pos,
        by_neg,
        *ℤ_parts (x -ℤ y) z,
        *ℤ_parts x z,
        *ℤ_parts y z,
        -ℤ_parts (x *ℤ z) (y *ℤ z),
      ))

pub mul_zero : (x : ℤ) → x *ℤ pos 0 ≡ pos 0
mul_zero x = omega (int_laws, *ℤ_parts)

pub mul_comm : (x y : ℤ) → x *ℤ y ≡ y *ℤ x
mul_comm x y = omega (int_laws, *ℤ_parts)
