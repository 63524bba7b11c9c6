-- ===== src/Pnl/Finds.antt =====
-- What a parsed table is good for: packages/gridcore/src/gridcore/pnl.py.
use grid_bot_validation.Prelude.{
  ◌≡◌, sym, ap, subst, ◌∙◌, inl, inr, some, List, [], ◌∷◌, Bool-cases,
}
use grid_bot_validation.Outcome.{ok, and_then_inversion, ok_injective, err-not-ok}
use grid_bot_validation.Decimal.{Decimals}
use grid_bot_validation.Decimal.Order.{IsOrdered}
use grid_bot_validation.Pnl.{Tier, MmTiers, find_matching_tier}
use grid_bot_validation.Pnl.Bisect.{first_tier, find_matching_tier-first}
use grid_bot_validation.Pnl.Table.{
  IsTable, validated-Ascending, open_last-IsTable, first_tier-open_last, validate_tiers-Cons,
}
use grid_bot_validation.Pnl.Validator.{
  Number, Reader, ApiTier, less_than, check_duplicate_boundaries, validate_tiers, open_last, sort,
  sort_tiers, insert_tier, all_tiers, parse_limit, parse_limits, out_of_order,
  parse_risk_limit_tiers,
}

-- A list with a first element.
abbrev Filled : {A : Type 0} → List A → Type 0
Filled {A = A} xs = (a : A) × (rest : List A) × (xs ≡ a ∷ rest)

module _ {D : Type 0} ⦃dec : Decimals D⦄ where
  parse_limits-Filled :
      (read : Reader D) (t : ApiTier) (ts : List ApiTier) (es : List (Number D × ApiTier))
      → parse_limits read (t ∷ ts) ≡ ok es
      → Filled es
  unfolding parse_limits
  parse_limits-Filled read t ts es h =
      let (v, _, k) = and_then_inversion (parse_limit read t) _ h in
      let (rest, _, k') = and_then_inversion (parse_limits read ts) _ k in
      ((v, t), rest, sym (ok_injective k'))

  insert_tier-Filled :
      (e : Number D × ApiTier) (es out : List (Number D × ApiTier))
      → insert_tier e es ≡ ok out
      → Filled out
  unfolding insert_tier
  insert_tier-Filled e [] out h = (e, [], sym (ok_injective h))
  insert_tier-Filled e (e' ∷ es) out h =
      let (b, _, k) = and_then_inversion (less_than e'.0 e.0) _ h in
      elim (Bool-cases b) [
        | inl less ↦
            let (rest, _, k') = and_then_inversion (insert_tier e es) _ (rw less at k) in
            (e', rest, sym (ok_injective k'))
        | inr more ↦ (e, e' ∷ es, sym (ok_injective (rw more at k)))
      ]

  all_tiers-Filled : (es : List (Number D × ApiTier)) → Filled es → Filled (all_tiers es)
  unfolding all_tiers
  all_tiers-Filled es (e, rest, same) = (e.1, all_tiers rest, ap all_tiers same)

  sort-Filled :
      (read : Reader D) (t : ApiTier) (ts out : List ApiTier)
      → sort read (t ∷ ts) ≡ ok out
      → Filled out
  unfolding sort sort_tiers
  sort-Filled read t ts out h =
      let (values, parsed, k) = and_then_inversion (parse_limits read (t ∷ ts)) _ h in
      let (v, vs, same) = parse_limits-Filled read t ts values parsed in
      let (b, _, k') = and_then_inversion (out_of_order values) _ k in
      elim (Bool-cases b) [
        | inr in_order ↦ (t, ts, sym (ok_injective (rw in_order at k')))
        | inl moved ↦
            let (es, sorted, k'') = and_then_inversion (sort_tiers values) _ (rw moved at k') in
            let (rest, _, inserted) =
              and_then_inversion (sort_tiers vs) (insert_tier v)
                (sym (ap sort_tiers same) ∙ sorted) in
            subst Filled (ok_injective k'')
              (all_tiers-Filled es (insert_tier-Filled v rest es inserted))
      ]

  -- A tier is found for every value: the first whose cap is not below it.
  pub record Finds (tiers : MmTiers D) : Type 0 where
    pub table : IsTable tiers
    pub found :
        (position_value : D)
        → (t : Tier D) × (find_matching_tier position_value tiers ≡ some t)
          × (first_tier position_value tiers ≡ some t)

  open_last-Finds :
      (o : IsOrdered dec) (read : Reader D) (ts : List ApiTier) (result : MmTiers D)
      → Filled ts
      → IsTable result
      → validate_tiers read ts ≡ ok result
      → Finds (open_last result)
  open_last-Finds o read ts result (t, rest, filled) table valid =
      let c =
        validate_tiers-Cons read t rest result (sym (ap (validate_tiers read) filled) ∙ valid) in
      let whole = open_last-IsTable o result table in
      record {
        table = whole;
        found = λ v.
            let (u, first) = first_tier-open_last o v c.head c.tail in
            let is_first = ap (λ x. first_tier v (open_last x)) c.whole ∙ first in
            (u, find_matching_tier-first o v (open_last result) whole.sorted ∙ is_first, is_first);
      }

  -- Whatever the exchange sends: if the table that is read from it is accepted at all, its caps ascend,
  -- its rates lie in [0, 1] and its deductions are not negative, and the binary search finds a tier for
  -- every position value, the same as a scan for the first cap that is not below the value.
  pub parse_risk_limit_tiers-Finds :
      (o : IsOrdered dec) (read : Reader D) (api_tiers : List ApiTier) (tiers : MmTiers D)
      → parse_risk_limit_tiers read api_tiers ≡ ok tiers
      → Finds tiers
  unfolding parse_risk_limit_tiers
  parse_risk_limit_tiers-Finds o read [] tiers h = absurd (err-not-ok h)
  parse_risk_limit_tiers-Finds o read (t ∷ ts) tiers h =
      let (sorted, h1, k1) = and_then_inversion (sort read (t ∷ ts)) _ h in
      let (u, h2, k2) = and_then_inversion (check_duplicate_boundaries read sorted) _ k1 in
      let (result, h3, k3) = and_then_inversion (validate_tiers read sorted) _ k2 in
      subst Finds (ok_injective k3) (
        open_last-Finds o read sorted result (sort-Filled read t ts sorted h1)
          (validated-Ascending o read sorted result h2 h3) h3)
