-- ===== src/Pnl/Validator.antt =====
-- Risk-limit tiers from the exchange: class _TierValidator and parse_risk_limit_tiers of
-- packages/gridcore/src/gridcore/pnl.py. That the answer is a list of dicts is in its type.
use grid_bot_validation.Prelude.{
  Bool, true, false, ◌||◌, Option, none, some, List, [], ◌∷◌, if◌then◌else◌,
}
use grid_bot_validation.Prelude.Int.{pos}
use grid_bot_validation.Text.{Text, same_text}
use grid_bot_validation.Outcome.{Error, Result, ok, err, and_then}
use grid_bot_validation.Decimal.{Decimals, zero_dec, lt, le}
use grid_bot_validation.Pnl.{Tier, MmTiers}

-- A `Decimal` that may be NaN, which compares with nothing.
pub data Number (D : Type 0) : Type 0 where
  number : D → Number D
  nan : Number D

-- `Decimal(text)`: `none` where it raises.
abbrev pub Reader : Type 0 → Type 0
Reader D = Text → Option (Number D)

-- The dict of a tier; `none` for a missing key.
pub record ApiTier : Type 0 where
  pub risk_limit_value : Option Text
  pub maintenance_margin : Option Text
  pub mm_deduction : Option Text
  pub initial_margin : Option Text

-- "Infinity" and "0"
abbrev pub infinity_text : Text
infinity_text = 73 ∷ 110 ∷ 102 ∷ 105 ∷ 110 ∷ 105 ∷ 116 ∷ 121 ∷ []

abbrev pub zero_text : Text
zero_text = 48 ∷ []

-- `tier.get(key, "") or "0"`
abbrev pub or_zero : Option Text → Text
or_zero none = zero_text
or_zero (some []) = zero_text
or_zero (some (c ∷ cs)) = c ∷ cs

abbrev pub boundary_text : Option Text → Text
boundary_text none = zero_text
boundary_text (some text) = text

module _ {D : Type 0} where
  -- A missing field and a text that is no decimal both raise ValueError.
  unfoldable pub read_field : Reader D → Option Text → Result (Number D)
  read_field read none = err Error.bad_tier
  read_field read (some text) = elim (read text) [ none ↦ err Error.bad_tier | some n ↦ ok n ]

  -- `_parse_limit`
  abbrev pub parse_limit : Reader D → ApiTier → Result (Number D)
  parse_limit read tier = read_field read tier.risk_limit_value

  unfoldable pub parse_limits : Reader D → List ApiTier → Result (List (Number D × ApiTier))
  parse_limits read [] = ok []
  parse_limits read (t ∷ ts) =
      and_then (parse_limit read t)
        (λ v. and_then (parse_limits read ts) (λ rest. ok ((v, t) ∷ rest)))

  unfoldable pub all_tiers : List (Number D × ApiTier) → List ApiTier
  all_tiers [] = []
  all_tiers (e ∷ es) = e.1 ∷ all_tiers es

  -- `Decimal(tier.get("riskLimitValue", "0"))`
  abbrev pub boundary_of : Option (Number D) → Result (Number D)
  boundary_of none = err Error.invalid_operation
  boundary_of (some n) = ok n

  abbrev pub boundary : Reader D → ApiTier → Result (Number D)
  boundary read tier = boundary_of (read (boundary_text tier.risk_limit_value))

module _ {D : Type 0} ⦃dec : Decimals D⦄ where
  unfoldable pub less_than : Number D → Number D → Result Bool
  less_than (number a) (number b) = ok (lt a b)
  less_than _ _ = err Error.invalid_operation

  -- The scan for a pair that is out of order
  unfoldable pub out_of_order : List (Number D × ApiTier) → Result Bool
  out_of_order [] = ok false
  out_of_order (e ∷ []) = ok false
  out_of_order (e ∷ e' ∷ es) =
      and_then (less_than e'.0 e.0) (λ b. if b then ok true else out_of_order (e' ∷ es))

  -- `sorted(api_tiers, key=_parse_limit)`: a stable sort, which raises where a comparison does.
  unfoldable pub insert_tier :
      Number D × ApiTier → List (Number D × ApiTier) → Result (List (Number D × ApiTier))
  insert_tier e [] = ok (e ∷ [])
  insert_tier e (e' ∷ es) =
      and_then (less_than e'.0 e.0)
        (λ b. if b then and_then (insert_tier e es) (λ rest. ok (e' ∷ rest)) else ok (e ∷ e' ∷ es))

  unfoldable pub sort_tiers : List (Number D × ApiTier) → Result (List (Number D × ApiTier))
  sort_tiers [] = ok []
  sort_tiers (e ∷ es) = and_then (sort_tiers es) (insert_tier e)

  -- `_TierValidator.sort`
  unfoldable pub sort : Reader D → List ApiTier → Result (List ApiTier)
  sort read api_tiers = and_then (parse_limits read api_tiers) (λ values.
      and_then (out_of_order values)
        (λ b. if b then and_then (sort_tiers values) (λ es. ok (all_tiers es)) else ok api_tiers))

  abbrev is_infinite : Number D → Bool
  is_infinite (number a) = dec.eq a dec.infinity
  is_infinite nan = false

  -- The test of two neighbours
  unfoldable pub check_pair : (prev_val curr_val : Number D) → Result (Unit {0})
  check_pair prev_val curr_val =
      if is_infinite curr_val
      then ok tt
      else and_then (less_than prev_val curr_val) (λ b. if b then ok tt else err Error.bad_tier)

  unfoldable pub check_duplicate_boundaries : Reader D → List ApiTier → Result (Unit {0})
  check_duplicate_boundaries read [] = ok tt
  check_duplicate_boundaries read (t ∷ []) = ok tt
  check_duplicate_boundaries read (t ∷ t' ∷ ts) = and_then (boundary read t) (λ prev_val.
      and_then (boundary read t') (λ curr_val.
        and_then (check_pair prev_val curr_val) (λ u. check_duplicate_boundaries read (t' ∷ ts))))

  -- The test of `_validate_max_val`; the text "Infinity" is not NaN.
  unfoldable pub accept_max_val : Text → Number D → Result D
  accept_max_val text nan = err Error.bad_tier
  accept_max_val text (number v) =
      if same_text text infinity_text
      then ok v
      else if le v zero_dec
      then err Error.bad_tier
      else ok v

  unfoldable pub validate_max_val : Reader D → Option Text → Result D
  validate_max_val read none = err Error.bad_tier
  validate_max_val read (some text) = and_then (read_field read (some text)) (accept_max_val text)

  -- A rate in [0, 1]; a comparison with NaN raises.
  unfoldable pub accept_rate : Number D → Result D
  accept_rate nan = err Error.invalid_operation
  accept_rate (number r) =
      if lt r zero_dec || lt (dec.ratio (pos 1) 1) r then err Error.bad_tier else ok r

  unfoldable pub accept_deduction : Number D → Result D
  accept_deduction nan = err Error.invalid_operation
  accept_deduction (number d) = if lt d zero_dec then err Error.bad_tier else ok d

  abbrev pub validate_mmr_rate : Reader D → ApiTier → Result D
  validate_mmr_rate read tier = and_then (read_field read tier.maintenance_margin) accept_rate

  abbrev pub validate_deduction : Reader D → ApiTier → Result D
  validate_deduction read tier =
      and_then (read_field read (some (or_zero tier.mm_deduction))) accept_deduction

  abbrev pub validate_imr_rate : Reader D → ApiTier → Result D
  validate_imr_rate read tier =
      and_then (read_field read (some (or_zero tier.initial_margin))) accept_rate

  unfoldable pub validate_tier : Reader D → ApiTier → Result (Tier D)
  validate_tier read tier = and_then (validate_max_val read tier.risk_limit_value) (λ max_val.
      and_then (validate_mmr_rate read tier) (λ mmr_rate.
        and_then (validate_deduction read tier) (λ deduction.
          and_then (validate_imr_rate read tier) (λ imr_rate. ok (record {
            max_val = max_val;
            mmr_rate = mmr_rate;
            deduction = deduction;
            imr_rate = imr_rate;
          })))))

  unfoldable pub validate_tiers : Reader D → List ApiTier → Result (MmTiers D)
  validate_tiers read [] = ok []
  validate_tiers read (t ∷ ts) =
      and_then (validate_tier read t)
        (λ tier. and_then (validate_tiers read ts) (λ tiers. ok (tier ∷ tiers)))

  -- The last tier's cap becomes Infinity; one that is Infinity already stays.
  unfoldable pub open_last : MmTiers D → MmTiers D
  open_last [] = []
  open_last (t ∷ []) =
      if dec.eq t.max_val dec.infinity then t ∷ [] else record t { max_val = dec.infinity } ∷ []
  open_last (t ∷ t' ∷ ts) = t ∷ open_last (t' ∷ ts)

  unfoldable pub parse_risk_limit_tiers : Reader D → List ApiTier → Result (MmTiers D)
  parse_risk_limit_tiers read [] = err Error.bad_tier
  parse_risk_limit_tiers read (t ∷ ts) = and_then (sort read (t ∷ ts)) (λ sorted_tiers.
      and_then (check_duplicate_boundaries read sorted_tiers)
        (λ u. and_then (validate_tiers read sorted_tiers) (λ result. ok (open_last result))))
