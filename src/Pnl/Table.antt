-- ===== src/Pnl/Table.antt =====
-- The tables that parse_risk_limit_tiers returns: packages/gridcore/src/gridcore/pnl.py.
use grid_bot_validation.Prelude.{
  false, ◌≡◌, refl, sym, ap, subst, ◌∙◌, inl, inr, some, List, [], ◌∷◌, Bool-cases,
}
use grid_bot_validation.Outcome.{ok, and_then_inversion, ok_injective, err-not-ok}
use grid_bot_validation.Decimal.{Decimals, lt}
use grid_bot_validation.Decimal.Order.{IsOrdered, not_lt_trans, lt_asymm}
use grid_bot_validation.Pnl.{Tier, MmTiers}
use grid_bot_validation.Pnl.Bisect.{NoneBelow, Ascending, caps, first_tier}
use grid_bot_validation.Pnl.Parsed.{AllRated, Validated, validate_tier-Validated}
use grid_bot_validation.Pnl.Validator.{
  number, Reader, ApiTier, boundary, less_than, check_pair, check_duplicate_boundaries,
  validate_tier, validate_tiers, open_last,
}

module _ {D : Type 0} ⦃dec : Decimals D⦄ where
  -- The caps ascend, and all rates and deductions are in range.
  pub record IsTable (ts : MmTiers D) : Type 0 where
    pub sorted : Ascending (caps ts)
    pub rated : AllRated ts

  pub record Cons (read : Reader D) (t : ApiTier) (ts : List ApiTier) (out : MmTiers D)
      : Type 0 where
    pub head : Tier D
    pub tail : MmTiers D
    pub valid : Validated read t head
    pub later : validate_tiers read ts ≡ ok tail
    pub whole : out ≡ head ∷ tail

  pub validate_tiers-Cons :
      (read : Reader D) (t : ApiTier) (ts : List ApiTier) (out : MmTiers D)
      → validate_tiers read (t ∷ ts) ≡ ok out
      → Cons read t ts out
  unfolding validate_tiers
  validate_tiers-Cons read t ts out h =
      let (tier, first, k) = and_then_inversion (validate_tier read t) _ h in
      let (tiers, later, k') = and_then_inversion (validate_tiers read ts) _ k in
      record {
        head = tier;
        tail = tiers;
        valid = validate_tier-Validated read t tier first;
        later = later;
        whole = sym (ok_injective k');
      }

module _ {D : Type 0} ⦃dec : Decimals D⦄ (o : IsOrdered dec) where
  check_pair-order : (a b : D) → check_pair (number a) (number b) ≡ ok tt → lt b a ≡ false
  unfolding check_pair less_than
  check_pair-order a b h = elim (Bool-cases (dec.eq b dec.infinity)) [
    | inl infinite ↦
        let same = (o.eq_iff b dec.infinity).0 infinite in
        subst (λ x. lt x a ≡ false) (sym same) (o.not_infinity_lt a)
    | inr finite ↦ elim (Bool-cases (lt a b)) [
      | inl less ↦ lt_asymm o a b less
      | inr not_less ↦ absurd (err-not-ok (rw (finite, not_less) at h))
    ]
  ]

  neighbours :
      (read : Reader D) (t t' : ApiTier) (ts : List ApiTier) (a b : D)
      → boundary read t ≡ ok (number a)
      → boundary read t' ≡ ok (number b)
      → check_duplicate_boundaries read (t ∷ t' ∷ ts) ≡ ok tt
      → (lt b a ≡ false) × (check_duplicate_boundaries read (t' ∷ ts) ≡ ok tt)
  unfolding check_duplicate_boundaries
  neighbours read t t' ts a b at_a at_b h =
      let (p, h1, k1) = and_then_inversion (boundary read t) _ h in
      let (c, h2, k2) = and_then_inversion (boundary read t') _ k1 in
      let (u, h3, k3) = and_then_inversion (check_pair p c) _ k2 in
      let same_p = ok_injective (sym h1 ∙ at_a) in
      let same_c = ok_injective (sym h2 ∙ at_b) in
      (
        check_pair-order a b (
            subst (λ x. check_pair x (number b) ≡ ok tt) same_p
              (subst (λ x. check_pair p x ≡ ok tt) same_c h3)),
        k3,
      )

  lower-NoneBelow : (v w : D) (ws : List D) → lt w v ≡ false → NoneBelow w ws → NoneBelow v ws
  unfolding NoneBelow
  lower-NoneBelow v w [] h all = tt
  lower-NoneBelow v w (x ∷ xs) h (a, all) = (not_lt_trans o v w x h a, lower-NoneBelow v w xs h all)

  pub validated-Ascending :
      (read : Reader D) (ts : List ApiTier) (out : MmTiers D)
      → check_duplicate_boundaries read ts ≡ ok tt
      → validate_tiers read ts ≡ ok out
      → IsTable out
  unfolding validate_tiers Ascending NoneBelow AllRated
  validated-Ascending read [] out h k =
      subst IsTable (ok_injective k) (record { sorted = tt; rated = tt })
  validated-Ascending read (t ∷ []) out h k =
      let c = validate_tiers-Cons read t [] out k in
      let alone = c.whole ∙ ap (◌∷◌ c.head) (sym (ok_injective c.later)) in
      subst IsTable (sym alone) (record { sorted = (tt, tt); rated = (c.valid.rated, tt) })
  validated-Ascending read (t ∷ t' ∷ ts) out h k =
      let c = validate_tiers-Cons read t (t' ∷ ts) out k in
      let c' = validate_tiers-Cons read t' ts c.tail c.later in
      let order =
        neighbours read t t' ts c.head.max_val c'.head.max_val c.valid.at_boundary
          c'.valid.at_boundary h in
      let table =
        validated-Ascending read (t' ∷ ts) (c'.head ∷ c'.tail) order.1 (c.later ∙ ap ok c'.whole) in
      let lower =
        lower-NoneBelow c.head.max_val c'.head.max_val (caps c'.tail) order.0 table.sorted.0 in
      subst IsTable (sym (c.whole ∙ ap (◌∷◌ c.head) c'.whole))
        (record { sorted = ((order.0, lower), table.sorted); rated = (c.valid.rated, table.rated) })

  -- With the last cap raised to Infinity.
  NoneBelow-open_last :
      (v : D) (ts : MmTiers D) → NoneBelow v (caps ts) → NoneBelow v (caps (open_last ts))
  unfolding NoneBelow open_last
  NoneBelow-open_last v [] h = tt
  NoneBelow-open_last v (t ∷ []) h = elim (Bool-cases (dec.eq t.max_val dec.infinity)) [
    | inl infinite ↦ rw infinite h
    | inr finite ↦ rw finite (o.not_infinity_lt v, tt)
  ]
  NoneBelow-open_last v (t ∷ t' ∷ ts) (h, hs) = (h, NoneBelow-open_last v (t' ∷ ts) hs)

  pub open_last-IsTable : (ts : MmTiers D) → IsTable ts → IsTable (open_last ts)
  unfolding open_last Ascending NoneBelow AllRated
  open_last-IsTable [] h = h
  open_last-IsTable (t ∷ []) h = elim (Bool-cases (dec.eq t.max_val dec.infinity)) [
    | inl infinite ↦ rw infinite h
    | inr finite ↦
        let r = h.rated.0 in
        rw finite (record {
          sorted = (tt, tt);
          rated = (
            record {
              mmr_low = r.mmr_low;
              mmr_high = r.mmr_high;
              imr_low = r.imr_low;
              imr_high = r.imr_high;
              deduction_low = r.deduction_low;
            },
            tt,
          );
        })
  ]
  open_last-IsTable (t ∷ t' ∷ ts) h =
      let later = open_last-IsTable (t' ∷ ts) (record { sorted = h.sorted.1; rated = h.rated.1 }) in
      record {
        sorted = (NoneBelow-open_last t.max_val (t' ∷ ts) h.sorted.0, later.sorted);
        rated = (h.rated.0, later.rated);
      }

  pub first_tier-open_last :
      (v : D) (t : Tier D) (ts : MmTiers D)
      → (u : Tier D) × (first_tier v (open_last (t ∷ ts)) ≡ some u)
  unfolding open_last first_tier
  first_tier-open_last v t [] = elim (Bool-cases (dec.eq t.max_val dec.infinity)) [
    | inl infinite ↦
        let same = (o.eq_iff t.max_val dec.infinity).0 infinite in
        let fits = subst (λ x. lt x v ≡ false) (sym same) (o.not_infinity_lt v) in
        (t, rw (infinite, fits) refl)
    | inr finite ↦ (record t { max_val = dec.infinity }, rw (finite, o.not_infinity_lt v) refl)
  ]
  first_tier-open_last v t (t' ∷ ts) =
      let later = first_tier-open_last v t' ts in
      elim (Bool-cases (lt t.max_val v)) [
        | inl less ↦ (later.0, rw less later.1)
        | inr fits ↦ (t, rw fits refl)
      ]
