-- ===== src/Float.antt =====
-- What the strategy code does with a Python `float`. The type and its operations are parameters:
-- a float other than NaN, 0.0 and -0.0 taken as one. What a theorem needs of rounding arithmetic
-- is a hypothesis of that theorem.
pub mod Order
pub mod Fixed
use grid_bot_validation.Prelude.{ℕ, Bool}
use grid_bot_validation.Prelude.Int.{ℤ, pos}

pub record Floats (F : Type 0) : Type 0 where
  -- `<`, `<=` and `==`
  pub lt : F → F → Bool
  pub le : F → F → Bool
  pub eq : F → F → Bool
  -- the float nearest to a quotient of two integers: an int, a decimal literal, or `a / b` on ints
  pub ratio : ℤ → ℕ → F
  -- `float('-inf')`
  pub neg_inf : F
  pub add : F → F → F
  pub sub : F → F → F
  pub mul : F → F → F
  pub div : F → F → F
  pub abs : F → F
  -- `round(x)`, to the nearest integer, and back to a float
  pub round_int : F → F
  -- `float(f'{x:.10f}')` and `round(x, 8)`
  pub format10 : F → F
  pub round8 : F → F

module _ {F : Type 0} ⦃fl : Floats F⦄ where
  -- An int, or a literal with the value of an int.
  abbrev pub int : ℕ → F
  int n = fl.ratio (pos n) 1

  -- The literal n / d.
  abbrev pub lit : ℕ → ℕ → F
  lit n d = fl.ratio (pos n) d
