-- ===== src/Pnl/Bisect.antt =====
-- The search for a tier: packages/gridcore/src/gridcore/pnl.py.
use grid_bot_validation.Prelude.{
  ℕ, zero, suc, ◌+◌, ◌-◌, ◌/◌, ◌≤◌, ◌<◌, ltb, ◌≡◌, refl, sym, ap, subst, ◌∙◌, inl, inr, true, false,
  Option, none, some, List, [], ◌∷◌, length, get_elem?, map, if◌then◌else◌, arith, Bool-cases,
}
use grid_bot_validation.Decimal.{Decimals, lt}
use grid_bot_validation.Decimal.Order.{IsOrdered, lt_of_le_lt, not_lt_trans}
use grid_bot_validation.Pnl.{Tier, MmTiers, bisect_loop, bisect_left, find_matching_tier}

module _ {D : Type 0} where
  get_elem?_in : (a : List D) (i : ℕ) → i < length a → (v : D) × (get_elem? a i ≡ some v)
  get_elem?_in [] i h = absurd (ground arith)
  get_elem?_in (x ∷ xs) zero h = (x, refl)
  get_elem?_in (x ∷ xs) (suc i) h = get_elem?_in xs i (omega arith)

  get_elem?_out : (a : List D) (i : ℕ) → length a ≤ i → get_elem? a i ≡ none
  get_elem?_out [] i h = refl
  get_elem?_out (x ∷ xs) zero h = absurd (omega arith)
  get_elem?_out (x ∷ xs) (suc i) h = get_elem?_out xs i (omega arith)

module _ {D : Type 0} ⦃dec : Decimals D⦄ where
  -- None of the values is below `v`.
  unfoldable pub NoneBelow : D → List D → Type 0
  NoneBelow v [] = Unit {0}
  NoneBelow v (w ∷ ws) = (lt w v ≡ false) × NoneBelow v ws

  -- Each value is at most each later one.
  unfoldable pub Ascending : List D → Type 0
  Ascending [] = Unit {0}
  Ascending (v ∷ vs) = NoneBelow v vs × Ascending vs

  -- The caps of a table, in its order.
  abbrev pub caps : MmTiers D → List D
  caps tiers = map (λ t. t.max_val) tiers

  -- The first tier whose cap is not below the value, by a scan of the table.
  unfoldable pub first_tier : D → MmTiers D → Option (Tier D)
  first_tier v [] = none
  first_tier v (t ∷ ts) = let rest = first_tier v ts in if lt t.max_val v then rest else some t

  NoneBelow-at :
      (v w : D) (a : List D) (j : ℕ) → NoneBelow v a → get_elem? a j ≡ some w → lt w v ≡ false
  unfolding NoneBelow
  NoneBelow-at v w [] j h e = absurd (cc e)
  NoneBelow-at v w (x ∷ xs) zero (h, hs) e = ground (arith, h, e)
  NoneBelow-at v w (x ∷ xs) (suc j) (h, hs) e = NoneBelow-at v w xs j hs e

  Ascending-at :
      (a : List D) (i j : ℕ) (v w : D)
      → Ascending a
      → i < j
      → get_elem? a i ≡ some v
      → get_elem? a j ≡ some w
      → lt w v ≡ false
  unfolding Ascending
  Ascending-at [] i j v w h less ei ej = absurd (cc ei)
  Ascending-at (x ∷ xs) zero zero v w h less ei ej = absurd (omega arith)
  Ascending-at (x ∷ xs) zero (suc j) v w (h, hs) less ei ej =
      NoneBelow-at v w xs j (ground (arith, h, ei)) ej
  Ascending-at (x ∷ xs) (suc i) zero v w h less ei ej = absurd (omega arith)
  Ascending-at (x ∷ xs) (suc i) (suc j) v w (h, hs) less ei ej =
      Ascending-at xs i j v w hs (omega arith) ei ej

  -- Values before `k` are below `x`, and those from `k` on are not.
  record Splits (x : D) (a : List D) (lo hi : ℕ) : Type 0 where
    below : (i : ℕ) (v : D) → i < lo → get_elem? a i ≡ some v → lt v x ≡ true
    above : (i : ℕ) (v : D) → hi ≤ i → get_elem? a i ≡ some v → lt v x ≡ false

  module _ (o : IsOrdered dec) where
    move_lo :
        (x : D) (a : List D) (lo hi mid : ℕ) (v : D)
        → Ascending a
        → get_elem? a mid ≡ some v
        → lt v x ≡ true
        → Splits x a lo hi
        → Splits x a (suc mid) hi
    move_lo x a lo hi mid v sorted at less s = record {
      below = λ i w h e. elim (Bool-cases (ltb i mid)) [
        | inl before ↦
            lt_of_le_lt o w v x (Ascending-at a i mid w v sorted (ground arith) e at) less
        | inr here ↦
            let same : i ≡ mid = ground arith in
            ground (arith, less, sym at ∙ ap (get_elem? a) (sym same) ∙ e)
      ];
      above = s.above;
    }

    move_hi :
        (x : D) (a : List D) (lo hi mid : ℕ) (v : D)
        → Ascending a
        → get_elem? a mid ≡ some v
        → lt v x ≡ false
        → Splits x a lo hi
        → Splits x a lo mid
    move_hi x a lo hi mid v sorted at less s = record {
      below = s.below;
      above = λ i w h e. elim (Bool-cases (ltb mid i)) [
        | inl after ↦
            not_lt_trans o x v w less (Ascending-at a mid i v w sorted (ground arith) at e)
        | inr here ↦
            let same : i ≡ mid = ground arith in
            ground (arith, less, sym at ∙ ap (get_elem? a) (sym same) ∙ e)
      ];
    }

    bisect_loop-Splits :
        (fuel : ℕ) (a : List D) (x : D) (lo hi : ℕ)
        → Ascending a
        → lo ≤ hi
        → hi ≤ length a
        → hi - lo ≤ fuel
        → Splits x a lo hi
        → let r = bisect_loop fuel a x lo hi in Splits x a r r
    unfolding bisect_loop
    bisect_loop-Splits zero a x lo hi sorted order bound enough s =
        let same : hi ≡ lo = omega arith in subst (λ k. Splits x a lo k) same s
    bisect_loop-Splits (suc fuel) a x lo hi sorted order bound enough s =
        elim (Bool-cases (ltb lo hi)) [
          | inr done ↦
              let same : hi ≡ lo = ground arith in rw done (subst (λ k. Splits x a lo k) same s)
          | inl more ↦
              let mid = (lo + hi) / 2 in
              let (v, at) = get_elem?_in a mid (ground arith) in
              elim (Bool-cases (lt v x)) [
                | inl less ↦
                    rw (more, at, less)
                      (bisect_loop-Splits fuel a x (suc mid) hi sorted (ground arith) bound
                        (ground arith) (move_lo x a lo hi mid v sorted at less s))
                | inr not_less ↦
                    rw (more, at, not_less)
                      (bisect_loop-Splits fuel a x lo mid sorted (ground arith) (ground arith)
                        (ground arith) (move_hi x a lo hi mid v sorted at not_less s))
              ]
        ]

    split-first_tier :
        (x : D) (tiers : MmTiers D) (r : ℕ)
        → Splits x (caps tiers) r r
        → get_elem? tiers r ≡ first_tier x tiers
    unfolding first_tier
    split-first_tier x [] r s = refl
    split-first_tier x (t ∷ ts) zero s =
        let fits = s.above 0 t.max_val (omega arith) refl in ground (arith, fits)
    split-first_tier x (t ∷ ts) (suc r) s =
        let less = s.below 0 t.max_val (omega arith) refl in
        let later = split-first_tier x ts r (record {
          below = λ i v h e. s.below (suc i) v (omega arith) e;
          above = λ i v h e. s.above (suc i) v (omega arith) e;
        }) in
        ground (arith, less, later)

    -- In a table whose caps ascend, the binary search finds the first tier whose cap is not below the
    -- position's value, and no tier if there is none.
    pub find_matching_tier-first :
        (position_value : D) (tiers : MmTiers D)
        → Ascending (caps tiers)
        → find_matching_tier position_value tiers ≡ first_tier position_value tiers
    unfolding find_matching_tier
    find_matching_tier-first x tiers sorted =
        let a = caps tiers in
        split-first_tier x tiers (bisect_left a x) (
          bisect_loop-Splits (length a) a x 0 (length a) sorted (omega arith) (omega arith)
            (omega arith)
            (record {
              below = λ i v h e. absurd (omega arith);
              above = λ i v h e. absurd (cc (get_elem?_out a i h, e));
            }))
