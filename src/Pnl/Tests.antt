-- ===== src/Pnl/Tests.antt =====
-- Concrete runs of the margin formulas, and the theorems at inputs that meet their hypotheses.
use grid_bot_validation.Prelude.{ℕ, ◌-◌, ◌==◌, if◌then◌else◌, ◌≡◌, refl, none, some, List, [], ◌∷◌}
use grid_bot_validation.Prelude.Int.{pos, ◌-ℤ◌}
use grid_bot_validation.Text.{same_text}
use grid_bot_validation.Outcome.{Error, ok, err}
use grid_bot_validation.Decimal.Fixed.{FixedDec, fixed_decimals, dec_tenths, fixed_dec-IsOrdered}
use grid_bot_validation.Pnl.{
  Tier, MmTiers, mm_tiers_btcusdt, find_matching_tier, bisect_loop, calc_maintenance_margin,
  maintenance_from, last_tier,
}
use grid_bot_validation.Pnl.Bisect.{
  Ascending, NoneBelow, caps, first_tier, find_matching_tier-first,
}
use grid_bot_validation.Pnl.Finds.{Finds, parse_risk_limit_tiers-Finds}
use grid_bot_validation.Pnl.Validator.{
  number, nan, Reader, ApiTier, parse_risk_limit_tiers, sort, sort_tiers, insert_tier, all_tiers,
  parse_limits, read_field, out_of_order, less_than, check_duplicate_boundaries, check_pair,
  validate_tiers, validate_tier, validate_max_val, accept_max_val, accept_rate, accept_deduction,
  open_last,
}

abbrev btc : MmTiers FixedDec
btc = mm_tiers_btcusdt

btc-Ascending : Ascending (caps btc)
unfolding Ascending NoneBelow
btc-Ascending = (
  (refl, (refl, (refl, (refl, (refl, (refl, tt)))))),
  (
    (refl, (refl, (refl, (refl, (refl, tt))))),
    (
      (refl, (refl, (refl, (refl, tt)))),
      ((refl, (refl, (refl, tt))), ((refl, (refl, tt)), ((refl, tt), (tt, tt)))),
    ),
  ),
)

find_matching_tier-first_example :
    find_matching_tier (dec_tenths 50_000_000) btc ≡ first_tier (dec_tenths 50_000_000) btc
find_matching_tier-first_example =
    find_matching_tier-first fixed_dec-IsOrdered (dec_tenths 50_000_000) btc btc-Ascending

-- 5,000,000 is in the second tier: 5,000,000 * 0.01 - 10,000 = 40,000.
margin_run :
    calc_maintenance_margin (dec_tenths 50_000_000) [] (some btc)
    ≡ ok (dec_tenths 400_000, some (pos 10_000))
unfolding calc_maintenance_margin maintenance_from find_matching_tier bisect_loop last_tier ◌-ℤ◌
margin_run = refl

-- A reader of one digit, in tenths, for which "N" is NaN.
abbrev read : Reader FixedDec
read [] = none
read (c ∷ cs) = some (if c == 78 then nan else number (dec_tenths (c - 48)))

abbrev api_tier : ℕ → ApiTier
api_tier c = record {
  risk_limit_value = some (c ∷ []);
  maintenance_margin = some (49 ∷ []);
  mm_deduction = none;
  initial_margin = some (50 ∷ []);
}

abbrev api_tiers : List ApiTier
api_tiers = api_tier 55 ∷ api_tier 53 ∷ []

abbrev parsed_tier : FixedDec → Tier FixedDec
parsed_tier cap = record {
  max_val = cap;
  mmr_rate = dec_tenths 1;
  deduction = dec_tenths 0;
  imr_rate = dec_tenths 2;
}

-- The tiers are sorted, and the last cap is raised.
parsed_run :
    parse_risk_limit_tiers read api_tiers ≡ ok (parsed_tier (dec_tenths 5) ∷ parsed_tier none ∷ [])
unfolding parse_risk_limit_tiers sort sort_tiers insert_tier all_tiers parse_limits read_field
    out_of_order less_than check_duplicate_boundaries check_pair validate_tiers validate_tier
    validate_max_val accept_max_val accept_rate accept_deduction open_last same_text
parsed_run = refl

-- A limit that is not a number.
nan_run : parse_risk_limit_tiers read (api_tier 53 ∷ api_tier 78 ∷ []) ≡ err Error.invalid_operation
unfolding parse_risk_limit_tiers sort parse_limits read_field out_of_order less_than
nan_run = refl

parse_risk_limit_tiers-Finds_example : Finds (parsed_tier (dec_tenths 5) ∷ parsed_tier none ∷ [])
parse_risk_limit_tiers-Finds_example =
    parse_risk_limit_tiers-Finds fixed_dec-IsOrdered read api_tiers
      (parsed_tier (dec_tenths 5) ∷ parsed_tier none ∷ []) parsed_run
