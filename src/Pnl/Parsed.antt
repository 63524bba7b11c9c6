-- ===== src/Pnl/Parsed.antt =====
-- What a validated tier is: packages/gridcore/src/gridcore/pnl.py.
use grid_bot_validation.Prelude.{
  false, ◌||◌, ◌≡◌, ap, subst, ◌∙◌, inl, inr, Option, none, some, [], ◌∷◌, arith, Bool-cases,
  Option-cases,
}
use grid_bot_validation.Prelude.Int.{pos}
use grid_bot_validation.Text.{Text, same_text}
use grid_bot_validation.Outcome.{Error, ok, and_then_inversion, guarded, ok_injective, err-not-ok}
use grid_bot_validation.Decimal.{Decimals, zero_dec, lt, le}
use grid_bot_validation.Pnl.{Tier, MmTiers}
use grid_bot_validation.Pnl.Validator.{
  infinity_text, boundary_of, boundary_text, Number, number, nan, Reader, ApiTier, read_field,
  boundary, accept_max_val, validate_max_val, validate_mmr_rate, validate_deduction,
  validate_imr_rate, accept_rate, accept_deduction, validate_tier, or_zero,
}

module _ {D : Type 0} ⦃dec : Decimals D⦄ where
  -- The rates are in [0, 1] and the deduction is not negative.
  pub record IsRated (t : Tier D) : Type 0 where
    pub mmr_low : lt t.mmr_rate zero_dec ≡ false
    pub mmr_high : lt (dec.ratio (pos 1) 1) t.mmr_rate ≡ false
    pub imr_low : lt t.imr_rate zero_dec ≡ false
    pub imr_high : lt (dec.ratio (pos 1) 1) t.imr_rate ≡ false
    pub deduction_low : lt t.deduction zero_dec ≡ false

  unfoldable pub AllRated : MmTiers D → Type 0
  AllRated [] = Unit {0}
  AllRated (t ∷ ts) = IsRated t × AllRated ts

  accept_rate-range :
      (n : Number D) (r : D)
      → accept_rate n ≡ ok r
      → (lt r zero_dec ≡ false) × (lt (dec.ratio (pos 1) 1) r ≡ false)
  unfolding accept_rate
  accept_rate-range nan r h = absurd (err-not-ok h)
  accept_rate-range (number x) r h =
      let (fine, same) = guarded (lt x zero_dec || lt (dec.ratio (pos 1) 1) x) Error.bad_tier h in
      ground (arith, fine, same)

  accept_deduction-range :
      (n : Number D) (d : D) → accept_deduction n ≡ ok d → lt d zero_dec ≡ false
  unfolding accept_deduction
  accept_deduction-range nan d h = absurd (err-not-ok h)
  accept_deduction-range (number x) d h =
      let (fine, same) = guarded (lt x zero_dec) Error.bad_tier h in ground (arith, fine, same)

  accept_max_val-same :
      (text : Text) (n : Number D) (v : D) → accept_max_val text n ≡ ok v → n ≡ number v
  unfolding accept_max_val
  accept_max_val-same text nan v h = absurd (err-not-ok h)
  accept_max_val-same text (number x) v h = elim (Bool-cases (same_text text infinity_text)) [
    | inl infinite ↦ ap number (ok_injective (rw infinite at h))
    | inr finite ↦ ap number (guarded (le x zero_dec) Error.bad_tier (rw finite at h)).1
  ]

  read_field-some :
      (read : Reader D) (text : Text) (n : Number D)
      → read_field read (some text) ≡ ok n
      → read text ≡ some n
  unfolding read_field
  read_field-some read text n h = elim (Option-cases (read text)) [
    | inl malformed ↦ absurd (err-not-ok (rw (malformed, read_field) at h))
    | inr (m, known) ↦ known ∙ ap some (ok_injective (rw (known, read_field) at h))
  ]

  -- The cap that is validated is the boundary that is compared.
  validate_max_val-boundary :
      (read : Reader D) (field : Option Text) (v : D)
      → validate_max_val read field ≡ ok v
      → boundary_of (read (boundary_text field)) ≡ ok (number v)
  unfolding validate_max_val
  validate_max_val-boundary read none v h = absurd (err-not-ok h)
  validate_max_val-boundary read (some text) v h =
      let (n, reads, accepts) =
        and_then_inversion (read_field read (some text)) (accept_max_val text) h in
      ap boundary_of
        (read_field-some read text n reads ∙ ap some (accept_max_val-same text n v accepts))

  pub record Validated (read : Reader D) (t : ApiTier) (tier : Tier D) : Type 0 where
    pub at_boundary : boundary read t ≡ ok (number tier.max_val)
    pub rated : IsRated tier

  pub validate_tier-Validated :
      (read : Reader D) (t : ApiTier) (tier : Tier D)
      → validate_tier read t ≡ ok tier
      → Validated read t tier
  unfolding validate_tier
  validate_tier-Validated read t tier h =
      let (max_val, h1, k1) = and_then_inversion (validate_max_val read t.risk_limit_value) _ h in
      let (mmr, h2, k2) = and_then_inversion (validate_mmr_rate read t) _ k1 in
      let (ded, h3, k3) = and_then_inversion (validate_deduction read t) _ k2 in
      let (imr, h4, k4) = and_then_inversion (validate_imr_rate read t) _ k3 in
      let (m, _, mmr_ok) =
        and_then_inversion (read_field read t.maintenance_margin) accept_rate h2 in
      let (d, _, ded_ok) =
        and_then_inversion (read_field read (some (or_zero t.mm_deduction))) accept_deduction h3 in
      let (i, _, imr_ok) =
        and_then_inversion (read_field read (some (or_zero t.initial_margin))) accept_rate h4 in
      subst (Validated read t) (ok_injective k4) (record {
        at_boundary = validate_max_val-boundary read t.risk_limit_value max_val h1;
        rated = record {
          mmr_low = (accept_rate-range m mmr mmr_ok).0;
          mmr_high = (accept_rate-range m mmr mmr_ok).1;
          imr_low = (accept_rate-range i imr imr_ok).0;
          imr_high = (accept_rate-range i imr imr_ok).1;
          deduction_low = accept_deduction-range d ded ded_ok;
        };
      })
