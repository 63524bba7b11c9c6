-- ===== src/Pnl.antt =====
-- PnL and margin formulas, packages/gridcore/src/gridcore/pnl.py. Warnings are left out, and so is
-- the cache of the lists of boundaries, which changes no result.
pub mod Bisect
pub mod Validator
pub mod Parsed
pub mod Table
pub mod Finds
mod Tests
use grid_bot_validation.Prelude.{
  ℕ, zero, suc, ◌+◌, ◌/◌, ltb, Bool, true, false, Option, none, some, List, [], ◌∷◌, length,
  get_elem?, map, if◌then◌else◌,
}
use grid_bot_validation.Prelude.Int.{pos}
use grid_bot_validation.Text.{Text, same_text}
use grid_bot_validation.Outcome.{Error, Result, ok, err}
use grid_bot_validation.Float.{Floats}
use grid_bot_validation.Decimal.{Decimals, zero_dec, lt, le, max_dec}
use grid_bot_validation.Engine.Types.{Direction}

-- (max_position_value, mmr_rate, deduction, imr_rate)
pub record Tier (D : Type 0) : Type 0 where
  pub max_val : D
  pub mmr_rate : D
  pub deduction : D
  pub imr_rate : D

abbrev pub MmTiers : Type 0 → Type 0
MmTiers D = List (Tier D)

-- "BTCUSDT" and "ETHUSDT"
abbrev btcusdt : Text
btcusdt = 66 ∷ 84 ∷ 67 ∷ 85 ∷ 83 ∷ 68 ∷ 84 ∷ []

abbrev ethusdt : Text
ethusdt = 69 ∷ 84 ∷ 72 ∷ 85 ∷ 83 ∷ 68 ∷ 84 ∷ []

module _ {D : Type 0} ⦃dec : Decimals D⦄ where
  abbrev whole : ℕ → D
  whole n = dec.ratio (pos n) 1

  -- n thousandths
  abbrev thousandths : ℕ → D
  thousandths n = dec.ratio (pos n) 1000

  -- A tier of a table: the cap (`none` for Infinity) and the deduction in thousands, the rates in
  -- thousandths.
  abbrev tier : Option ℕ → (mmr deduction imr : ℕ) → Tier D
  tier cap mmr deduction imr = record {
    max_val = elim cap [ none ↦ dec.infinity | some n ↦ whole n ];
    mmr_rate = thousandths mmr;
    deduction = whole deduction;
    imr_rate = thousandths imr;
  }

  abbrev pub mm_tiers_btcusdt : MmTiers D
  mm_tiers_btcusdt =
      tier (some 2_000_000) 5 0 10
      ∷ tier (some 10_000_000) 10 10_000 20
      ∷ tier (some 20_000_000) 25 160_000 50
      ∷ tier (some 40_000_000) 50 660_000 100
      ∷ tier (some 80_000_000) 100 2_660_000 200
      ∷ tier (some 160_000_000) 125 4_660_000 250
      ∷ tier none 150 8_660_000 300
      ∷ []

  abbrev pub mm_tiers_ethusdt : MmTiers D
  mm_tiers_ethusdt =
      tier (some 1_000_000) 5 0 10
      ∷ tier (some 5_000_000) 10 5_000 20
      ∷ tier (some 10_000_000) 25 80_000 50
      ∷ tier (some 20_000_000) 50 330_000 100
      ∷ tier (some 40_000_000) 100 1_330_000 200
      ∷ tier (some 80_000_000) 125 2_330_000 250
      ∷ tier none 150 4_330_000 300
      ∷ []

  abbrev pub mm_tiers_default : MmTiers D
  mm_tiers_default =
      tier (some 1_000_000) 10 0 20
      ∷ tier (some 5_000_000) 25 15_000 50
      ∷ tier (some 10_000_000) 50 140_000 100
      ∷ tier (some 20_000_000) 100 640_000 200
      ∷ tier none 150 1_640_000 300
      ∷ []

  -- `MM_TIERS.get(symbol, MM_TIERS_DEFAULT)`
  abbrev pub mm_tiers : Text → MmTiers D
  mm_tiers symbol =
      if same_text symbol btcusdt
      then mm_tiers_btcusdt
      else if same_text symbol ethusdt
      then mm_tiers_ethusdt
      else mm_tiers_default

  unfoldable pub calc_unrealised_pnl : Direction → (entry_price current_price size : D) → D
  calc_unrealised_pnl Direction.long entry_price current_price size =
      dec.mul (dec.sub current_price entry_price) size
  calc_unrealised_pnl Direction.short entry_price current_price size =
      dec.mul (dec.sub entry_price current_price) size

  unfoldable pub calc_unrealised_pnl_pct : Direction → (entry_price current_price leverage : D) → D
  calc_unrealised_pnl_pct direction entry_price current_price leverage =
      if le entry_price zero_dec
      then zero_dec
      else if le current_price zero_dec
      then zero_dec
      else let gain : D = elim direction [
        | Direction.long ↦ dec.sub current_price entry_price
        | Direction.short ↦ dec.sub entry_price current_price
      ] in
        dec.mul (dec.mul (dec.div gain entry_price) leverage) (whole 100)

  abbrev pub calc_position_value : (size entry_price : D) → D
  calc_position_value size entry_price = dec.mul size entry_price

  unfoldable pub calc_margin_ratio : (position_value wallet_balance : D) → D
  calc_margin_ratio position_value wallet_balance =
      if le wallet_balance zero_dec then zero_dec else dec.div position_value wallet_balance

  -- The loop of the standard library's `bisect_left`, on fuel; an index out of range ends it.
  unfoldable pub bisect_loop : (fuel : ℕ) → List D → D → (lo hi : ℕ) → ℕ
  bisect_loop zero a x lo hi = lo
  bisect_loop (suc fuel) a x lo hi =
      let mid = (lo + hi) / 2 in
      let right = bisect_loop fuel a x (suc mid) hi in
      let left = bisect_loop fuel a x lo mid in
      if ltb lo hi
      then elim (get_elem? a mid) [ none ↦ lo | some v ↦ if lt v x then right else left ]
      else lo

  abbrev pub bisect_left : List D → D → ℕ
  bisect_left a x = bisect_loop (length a) a x 0 (length a)

  unfoldable pub find_matching_tier : D → MmTiers D → Option (Tier D)
  find_matching_tier position_value tiers =
      get_elem? tiers (bisect_left (map (λ t. t.max_val) tiers) position_value)

  -- The part of `calc_initial_margin` after the search
  unfoldable pub margin_at : (position_value leverage : D) → Option (Tier D) → D × D
  margin_at position_value leverage (some t) = (dec.mul position_value t.imr_rate, t.imr_rate)
  margin_at position_value leverage none =
      if le leverage zero_dec
      then (zero_dec, zero_dec)
      else (dec.div position_value leverage, dec.div (whole 1) leverage)

  abbrev initial_table : Text → Option (MmTiers D) → MmTiers D
  initial_table symbol (some tiers) = tiers
  initial_table [] none = mm_tiers_default
  initial_table (c ∷ cs) none = mm_tiers (c ∷ cs)

  unfoldable pub calc_initial_margin :
      (position_value leverage : D) → Text → Option (MmTiers D) → Result (D × D)
  calc_initial_margin position_value leverage symbol tiers =
      if lt position_value zero_dec
      then err Error.negative_value
      else if dec.eq position_value zero_dec
      then ok (zero_dec, zero_dec)
      else ok (
          margin_at position_value leverage
            (find_matching_tier position_value (initial_table symbol tiers)))

  -- `tier_table[-1]`
  unfoldable pub last_tier : MmTiers D → Option (Tier D)
  last_tier [] = none
  last_tier (t ∷ []) = some t
  last_tier (t ∷ t' ∷ ts) = last_tier (t' ∷ ts)

  abbrev table_of : Text → Option (MmTiers D) → MmTiers D
  table_of symbol (some tiers) = tiers
  table_of symbol none = mm_tiers symbol

  abbrev maintenance_at : D → Tier D → D × D
  maintenance_at position_value t =
      (max_dec (dec.sub (dec.mul position_value t.mmr_rate) t.deduction) zero_dec, t.mmr_rate)

  unfoldable pub maintenance_from : D → (found last : Option (Tier D)) → Result (D × D)
  maintenance_from position_value (some t) last = ok (maintenance_at position_value t)
  maintenance_from position_value none (some t) = ok (maintenance_at position_value t)
  maintenance_from position_value none none = err Error.index_out_of_range

  unfoldable pub calc_maintenance_margin : D → Text → Option (MmTiers D) → Result (D × D)
  calc_maintenance_margin position_value symbol tiers =
      let table = table_of symbol tiers in
      if lt position_value zero_dec
      then err Error.negative_value
      else if dec.eq position_value zero_dec
      then ok (zero_dec, zero_dec)
      else maintenance_from position_value (find_matching_tier position_value table)
          (last_tier table)

  -- `calc_imr_pct` and `calc_mmr_pct`
  unfoldable pub calc_imr_pct : (total_initial_margin margin_balance : D) → D
  calc_imr_pct total_initial_margin margin_balance =
      if le margin_balance zero_dec
      then zero_dec
      else dec.mul (dec.div total_initial_margin margin_balance) (whole 100)

  unfoldable pub calc_mmr_pct : (total_maintenance_margin margin_balance : D) → D
  calc_mmr_pct total_maintenance_margin margin_balance =
      if le margin_balance zero_dec
      then zero_dec
      else dec.mul (dec.div total_maintenance_margin margin_balance) (whole 100)

-- `calc_liq_ratio`, with `float(...)` of a decimal
unfoldable pub calc_liq_ratio :
    {D F : Type 0} ⦃dec : Decimals D⦄ ⦃fl : Floats F⦄ → (D → F) → (liq_price current_price : D) → F
calc_liq_ratio ⦃dec = dec⦄ ⦃fl = fl⦄ to_float liq_price current_price =
    if dec.eq current_price zero_dec
    then fl.ratio (pos 0) 1
    else fl.div (to_float liq_price) (to_float current_price)
