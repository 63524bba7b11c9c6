-- ===== src/Decimal.antt =====
-- What the code does with a Python `Decimal`. The type and its operations are parameters: a finite
-- decimal or an infinity, decimals of different scale and the same value taken as one. What a theorem
-- needs of the arithmetic, which rounds to 28 digits, is a hypothesis of that theorem.
pub mod Order
pub mod Fixed
pub mod Whole
use grid_bot_validation.Prelude.{ℕ, Bool, not, if◌then◌else◌}
use grid_bot_validation.Prelude.Int.{ℤ, pos}

pub record Decimals (D : Type 0) : Type 0 where
  -- `<` and `==`
  pub lt : D → D → Bool
  pub eq : D → D → Bool
  -- an int, or a literal
  pub ratio : ℤ → ℕ → D
  -- `Decimal('Infinity')`
  pub infinity : D
  pub add : D → D → D
  pub sub : D → D → D
  pub mul : D → D → D
  -- of a divisor that is not zero
  pub div : D → D → D

module _ {D : Type 0} ⦃dec : Decimals D⦄ where
  -- `Decimal('0')`
  abbrev pub zero_dec : D
  zero_dec = dec.ratio (pos 0) 1

  abbrev pub lt : D → D → Bool
  lt = dec.lt

  -- `x <= y`: a decimal other than NaN is ordered
  abbrev pub le : D → D → Bool
  le x y = not (dec.lt y x)

  -- `abs(x)`
  abbrev pub abs : D → D
  abs x = if dec.lt x zero_dec then dec.sub zero_dec x else x

  -- `min(x, y)` and `max(x, y)`: the first where they are equal
  abbrev pub min_dec : D → D → D
  min_dec x y = if dec.lt y x then y else x

  abbrev pub max_dec : D → D → D
  max_dec x y = if dec.lt x y then y else x
