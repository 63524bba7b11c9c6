-- ===== src/Text.antt =====
-- Python strings, as the lists of their characters' codes: comparison, `str` of a number, and what
-- packages/gridcore/src/gridcore/intents.py reads of an order link id.
pub mod Digits
use grid_bot_validation.Prelude.{
  ℕ, zero, suc, ◌+◌, ◌-◌, ◌/◌, ◌%◌, ltb, ◌==◌, ◌≡◌, refl, Bool, true, false, ◌&&◌, ◌||◌, Option,
  none, some, List, [], ◌∷◌, ◌++◌, length, replicate, if◌then◌else◌, arith, ap, Bool-cases, inl,
  inr, ◌⊎◌,
}

abbrev pub Text : Type 0
Text = List ℕ

unfoldable pub same_text : Text → Text → Bool
same_text [] [] = true
same_text (c ∷ cs) (d ∷ ds) = let rest = same_text cs ds in c == d && rest
same_text _ _ = false

-- `a < b`, by the characters' codes
unfoldable pub text_lt : Text → Text → Bool
text_lt [] [] = false
text_lt [] (d ∷ ds) = true
text_lt (c ∷ cs) [] = false
text_lt (c ∷ cs) (d ∷ ds) = let rest = text_lt cs ds in ltb c d || (c == d && rest)

-- The code of '-'.
abbrev pub dash : ℕ
dash = 45

unfoldable pub before_dash : Text → Text
before_dash [] = []
before_dash (c ∷ cs) = let rest = before_dash cs in if c == dash then [] else c ∷ rest

abbrev pub or_nothing : Text → Option Text
or_nothing [] = none
or_nothing (c ∷ cs) = some (c ∷ cs)

-- `extract_client_order_prefix` of packages/gridcore/src/gridcore/intents.py
unfoldable pub extract_client_order_prefix : Option Text → Option Text
unfolding before_dash
extract_client_order_prefix none = none
extract_client_order_prefix (some link) = or_nothing (before_dash link)

-- `str(n)` of a number that is not negative. Each step takes off a digit, so `n + 1` steps are enough.
unfoldable pub digits : ℕ → ℕ → Text
digits zero n = []
digits (suc fuel) n = elim (ltb n 10) [
  | true ↦ (48 + n) ∷ []
  | false ↦ digits fuel (n / 10) ++ (48 + n % 10) ∷ []
]

abbrev pub decimal : ℕ → Text
decimal n = digits (suc n) n

-- `f'{n:08d}'` for a width
abbrev pub padded : (width n : ℕ) → Text
padded width n = let ds = decimal n in replicate (width - length ds) 48 ++ ds

pub same_text-to : (a b : Text) → same_text a b ≡ true → a ≡ b
unfolding same_text
same_text-to [] [] h = refl
same_text-to [] (d ∷ ds) h = absurd (cc h)
same_text-to (c ∷ cs) [] h = absurd (cc h)
same_text-to (c ∷ cs) (d ∷ ds) h = ground (arith, same_text-to cs ds)

pub same_text-of : (a : Text) → same_text a a ≡ true
unfolding same_text
same_text-of [] = refl
same_text-of (c ∷ cs) = ground (arith, same_text-of cs)

-- To split on whether two texts are the same.
pub same_text-cases : (a b : Text) → (a ≡ b) ⊎ (same_text a b ≡ false)
same_text-cases a b = elim (Bool-cases (same_text a b)) [
  | inl same ↦ inl (same_text-to a b same)
  | inr differs ↦ inr differs
]

pub same_text_comm : (a b : Text) → same_text a b ≡ same_text b a
unfolding same_text
same_text_comm [] [] = refl
same_text_comm [] (d ∷ ds) = refl
same_text_comm (c ∷ cs) [] = refl
same_text_comm (c ∷ cs) (d ∷ ds) = ground (arith, same_text_comm cs ds)
