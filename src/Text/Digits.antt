-- ===== src/Text/Digits.antt =====
-- What a printed number reads back as.
use grid_bot_validation.Prelude.{
  ℕ, zero, suc, ◌+◌, ◌-◌, ◌*◌, ◌/◌, ◌%◌, ◌≤◌, ◌<◌, length-append, ltb, ◌≡◌, refl, sym, ap, ◌∙◌, [],
  ◌∷◌, ◌++◌, length, replicate, arith, Bool-cases, inl, inr, lt→ltb,
}
use grid_bot_validation.Text.{Text, digits, decimal, padded}

-- The number that a text of digits stands for, after `acc`.
pub value : ℕ → Text → ℕ
value acc [] = acc
value acc (c ∷ cs) = value (acc * 10 + (c - 48)) cs

value-append :
    (acc : ℕ) (cs : Text) (c : ℕ) → value acc (cs ++ c ∷ []) ≡ value acc cs * 10 + (c - 48)
unfolding value
value-append acc [] c = refl
value-append acc (d ∷ ds) c = value-append (acc * 10 + (d - 48)) ds c

value-zeros : (k : ℕ) (cs : Text) → value 0 (replicate k 48 ++ cs) ≡ value 0 cs
unfolding value
value-zeros zero cs = refl
value-zeros (suc k) cs = value-zeros k cs

value-digits : (fuel n : ℕ) → n ≤ fuel → value 0 (digits (suc fuel) n) ≡ n
unfolding value digits
value-digits zero n h = let none_left : n ≡ 0 = omega arith in rw none_left refl
value-digits (suc fuel) n h = elim (Bool-cases (ltb n 10)) [
  | inl small ↦ rw (small, value) (omega arith)
  | inr large ↦
      rw
        (
          large,
          value,
          value-append 0 (digits (suc fuel) (n / 10)) (48 + n % 10),
          value-digits fuel (n / 10) (ground arith),
        )
        (omega arith)
]

pub value-padded : (width n : ℕ) → value 0 (padded width n) ≡ n
value-padded width n =
    value-zeros (width - length (decimal n)) (decimal n) ∙ value-digits n n (omega arith)

pub padded_injective : (width n m : ℕ) → padded width n ≡ padded width m → n ≡ m
padded_injective width n m h = sym (value-padded width n) ∙ ap (value 0) h ∙ value-padded width m

unfoldable pub power_of_ten : ℕ → ℕ
power_of_ten zero = 1
power_of_ten (suc k) = 10 * power_of_ten k

length-digits_bound : (fuel k n : ℕ) → n < power_of_ten (suc k) → length (digits fuel n) ≤ suc k
unfolding digits power_of_ten
length-digits_bound zero k n h = omega arith
length-digits_bound (suc fuel) zero n h = rw (lt→ltb n 10 (omega arith), length) (omega arith)
length-digits_bound (suc fuel) (suc k) n h = elim (Bool-cases (ltb n 10)) [
  | inl small ↦ rw (small, length) (omega arith)
  | inr large ↦
      let shorter = length-digits_bound fuel k (n / 10) (omega arith) in
      let parts : digits (suc fuel) n ≡ digits fuel (n / 10) ++ (48 + n % 10) ∷ [] =
        rw (large, digits) refl in
      omega
        (arith, shorter, ap length parts, length-append (digits fuel (n / 10)) ((48 + n % 10) ∷ []))
]

-- A number below a power of ten has no more digits than the exponent.
pub length-decimal_bound : (k n : ℕ) → n < power_of_ten (suc k) → length (decimal n) ≤ suc k
length-decimal_bound k n h = length-digits_bound (suc n) k n h
