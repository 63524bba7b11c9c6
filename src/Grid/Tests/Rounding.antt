-- ===== src/Grid/Tests/Rounding.antt =====
-- The fixed-point numbers meet the hypotheses on rounding at tick size 0.1 and step 0.2 %.
use grid_bot_validation.Prelude.{◌≡◌, refl, false, none, some, arith}
use grid_bot_validation.Prelude.Int.{pos, negsuc}
use grid_bot_validation.Float.Fixed.{Fixed, fixed_floats}
use grid_bot_validation.Grid.Build.{round_price}
use grid_bot_validation.Grid.Build.Sorted.{IsMonotone}

abbrev tick : Fixed
tick = some (pos 100_000)

abbrev up : Fixed
up = some (pos 1_002_000)

abbrev down : Fixed
down = some (pos 998_000)

stable : (x : Fixed) → round_price tick (round_price tick x) ≡ round_price tick x
unfolding round_price
stable none = refl
stable (some (pos n)) = ground arith
stable (some (negsuc n)) = ground arith

-- What `IsMonotone` asks holds of every price that is not negative.
rises :
    (x : Fixed)
    → fixed_floats.lt x (some (pos 0)) ≡ false
    → fixed_floats.lt (round_price tick (fixed_floats.mul x up)) (round_price tick x) ≡ false
unfolding round_price
rises none h = cc
rises (some (pos n)) h = ground arith
rises (some (negsuc n)) h = absurd (ground arith)

falls :
    (x : Fixed)
    → fixed_floats.lt x (some (pos 0)) ≡ false
    → fixed_floats.lt (round_price tick x) (round_price tick (fixed_floats.mul x down)) ≡ false
unfolding round_price
falls none h = cc
falls (some (pos n)) h = ground arith
falls (some (negsuc n)) h = absurd (ground arith)

nonneg :
    (x y : Fixed)
    → fixed_floats.lt x (some (pos 0)) ≡ false
    → fixed_floats.lt y (some (pos 0)) ≡ false
    → fixed_floats.lt (round_price tick (fixed_floats.mul x y)) (some (pos 0)) ≡ false
unfolding round_price
nonneg none y h k = cc
nonneg (some (pos n)) none h k = cc
nonneg (some (pos n)) (some (pos m)) h k = ground arith
nonneg (some (pos n)) (some (negsuc m)) h k = absurd (ground arith)
nonneg (some (negsuc n)) y h k = absurd (ground arith)

middle_nonneg :
    (x : Fixed)
    → fixed_floats.lt x (some (pos 0)) ≡ false
    → fixed_floats.lt (round_price tick x) (some (pos 0)) ≡ false
unfolding round_price
middle_nonneg none h = cc
middle_nonneg (some (pos n)) h = ground arith
middle_nonneg (some (negsuc n)) h = absurd (ground arith)

pub fixed-IsMonotone : IsMonotone tick up down
fixed-IsMonotone = record {
  stable = stable;
  rises = rises;
  falls = falls;
  middle_nonneg = middle_nonneg;
  up_nonneg = λ x h. nonneg x up h refl;
  down_nonneg = λ x h. nonneg x down h refl;
}
