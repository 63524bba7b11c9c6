-- ===== src/Grid/Check/Restore.antt =====
-- `restore_grid`: take over a saved grid if it passes `is_grid_correct`.
use grid_bot_validation.Prelude.{
  ℕ, zero, suc, ◌-◌, ◌/◌, ◌%◌, ◌==◌, ◌<◌, length, get_elem?, ◌≡◌, refl, ◌∙◌, ap, ap₂, Bool, true,
  false, ◌⊎◌, inl, inr, Option, none, some, List, [], ◌∷◌, arith, if◌then◌else◌, Bool-cases,
}
use grid_bot_validation.Float.{Floats, int}
use grid_bot_validation.Outcome.{Result, Error, ok, err, Action}
use grid_bot_validation.Grid.Level.{GridSideType, Level, Grid}
use grid_bot_validation.Grid.Check.{
  is_grid_correct, is_price_sorted, scan, wait_center, center_of, median, price_at, min_from,
  max_from, wait_prices,
}

-- What `float(item['price'])` gives: a number, an exception that is caught (a missing key, or a value
-- that is no number), or the `OverflowError` of an integer that no float reaches, which is not caught.
-- A NaN, which `float` takes as well, is no element of `F`.
pub data SavedPrice (F : Type 0) : Type 0 where
  number : F → SavedPrice F
  rejected overflow : SavedPrice F

-- A dict of the saved list. The side is `none` where `GridSideType(item['side'])` raises, for a
-- missing key or a value that is no side.
pub record SavedLevel (F : Type 0) : Type 0 where
  pub side : Option GridSideType
  pub price : SavedPrice F

module _ {F : Type 0} where
  -- One dict; `none` is an exception that is caught.
  abbrev priced : GridSideType → SavedPrice F → Result (Option (Level F))
  priced s (SavedPrice.number p) = ok (some (record { side = s; price = p }))
  priced s SavedPrice.rejected = ok none
  priced s SavedPrice.overflow = err Error.float_overflow

  abbrev parse_level : Option GridSideType → SavedPrice F → Result (Option (Level F))
  parse_level none p = ok none
  parse_level (some s) p = priced s p

  abbrev add_level :
      Result (Option (Level F))
      → Result (Option (List (Level F)))
      → Result (Option (List (Level F)))
  add_level (err e) rest = err e
  add_level (ok none) rest = ok none
  add_level (ok (some p)) (err e) = err e
  add_level (ok (some p)) (ok none) = ok none
  add_level (ok (some p)) (ok (some ps)) = ok (some (p ∷ ps))

  -- The list comprehension under `try`: the first dict that raises ends it.
  unfoldable pub parse_levels : List (SavedLevel F) → Result (Option (List (Level F)))
  parse_levels [] = ok (some [])
  parse_levels (l ∷ ls) = add_level (parse_level l.side l.price) (parse_levels ls)

  -- The levels that the dicts stand for, one for one.
  abbrev pub Reads : List (SavedLevel F) → List (Level F) → Type 0
  Reads [] [] = Unit {0}
  Reads (l ∷ ls) (k ∷ ks) =
      (l.side ≡ some k.side) × (l.price ≡ SavedPrice.number k.price) × Reads ls ks
  Reads _ _ = ⊥

  -- Some price is out of range, and every dict before it can be read.
  abbrev pub Overflows : List (SavedLevel F) → Type 0
  Overflows [] = ⊥
  Overflows (l ∷ ls) =
      ((s : GridSideType) × (l.side ≡ some s))
      × ((l.price ≡ SavedPrice.overflow)
          ⊎ (((p : F) × (l.price ≡ SavedPrice.number p)) × Overflows ls))

get_elem?-within {ℓ} :
    {A : Type ℓ} (xs : List A) (i : ℕ) → i < length xs → (a : A) × (get_elem? xs i ≡ some a)
get_elem?-within [] i h = absurd (omega arith)
get_elem?-within (x ∷ xs) zero h = (x, refl)
get_elem?-within (x ∷ xs) (suc i) h = get_elem?-within xs i (omega arith)

module _ {F : Type 0} ⦃fl : Floats F⦄ where
  -- The part after the `try`.
  abbrev check_restored : List (Level F) → Action (Grid F) Bool
  check_restored restored g =
      if is_grid_correct restored
      then elim (wait_center restored) [
        | err e ↦ (err e, record g { levels = restored })
        | ok center ↦ (ok true, record g { levels = restored; original_anchor_price = some center })
      ]
      else (ok false, record g { levels = [] })

  abbrev take_over : Result (Option (List (Level F))) → Action (Grid F) Bool
  take_over (err e) g = (err e, g)
  take_over (ok none) g = (ok false, record g { levels = [] })
  take_over (ok (some restored)) g = check_restored restored g

  unfoldable pub restore_grid : List (SavedLevel F) → Action (Grid F) Bool
  restore_grid saved g = take_over (parse_levels saved) g

  price_at-within : (ls : List (Level F)) (i : ℕ) → i < length ls → (p : F) × (price_at ls i ≡ ok p)
  unfolding price_at
  price_at-within ls i h = let (l, e) = get_elem?-within ls i h in (l.price, rw (e, price_at))

  median-total : (l : Level F) (ls : List (Level F)) → (c : F) × (median (l ∷ ls) ≡ ok c)
  unfolding median
  median-total l ls =
      let n = length (l ∷ ls) in
      let (b, eb) = price_at-within (l ∷ ls) (n / 2) (omega arith) in
      elim (Bool-cases (n % 2 == 0)) [
        | inl even ↦
            let (a, ea) = price_at-within (l ∷ ls) (n / 2 - 1) (omega arith) in
            (fl.div (fl.add a b) (int 2), ground (arith, ea, eb))
        | inr odd ↦ (b, ground (arith, eb))
      ]

  -- A grid with a level has a center.
  center_of-total :
      (l : Level F) (ls : List (Level F)) (ps : List F) → (c : F) × (center_of (l ∷ ls) ps ≡ ok c)
  unfolding center_of
  center_of-total l ls [] = median-total l ls
  center_of-total l ls (p ∷ ps) = (fl.div (fl.add (min_from p ps) (max_from p ps)) (int 2), refl)

  pub wait_center-total :
      (l : Level F) (ls : List (Level F)) → (c : F) × (wait_center (l ∷ ls) ≡ ok c)
  unfolding wait_center
  wait_center-total l ls = center_of-total l ls (wait_prices (l ∷ ls))

  correct-center :
      (ls : List (Level F)) → is_grid_correct ls ≡ true → (c : F) × (wait_center ls ≡ ok c)
  unfolding is_grid_correct is_price_sorted scan
  correct-center [] h = cc
  correct-center (l ∷ ls) h = wait_center-total l ls

module _ {F : Type 0} where
  -- What the comprehension has found.
  abbrev Parsed : List (SavedLevel F) → Result (Option (List (Level F))) → Type 0
  Parsed saved (err e) = (e ≡ Error.float_overflow) × Overflows saved
  Parsed saved (ok none) = ((ls : List (Level F)) → Reads saved ls → ⊥) × (Overflows saved → ⊥)
  Parsed saved (ok (some ls)) = Reads saved ls × ((ks : List (Level F)) → Reads saved ks → ks ≡ ls)

  no_side :
      (l : SavedLevel F) (ls : List (SavedLevel F)) → l.side ≡ none → Parsed (l ∷ ls) (ok none)
  no_side l ls e = (none_read, λ over. cc (e, over.0.1))
    where
      none_read : (ks : List (Level F)) → Reads (l ∷ ls) ks → ⊥
      none_read [] r = r
      none_read (k ∷ ks) r = cc (e, r.0)

  no_price :
      (l : SavedLevel F) (ls : List (SavedLevel F))
      → l.price ≡ SavedPrice.rejected
      → Parsed (l ∷ ls) (ok none)
  no_price l ls e = (none_read, none_over)
    where
      none_read : (ks : List (Level F)) → Reads (l ∷ ls) ks → ⊥
      none_read [] r = r
      none_read (k ∷ ks) r = cc (e, r.1)

      none_over : Overflows (l ∷ ls) → ⊥
      none_over (s, inl over) = cc (e, over)
      none_over (s, inr (read, over)) = cc (e, read.1)

  no_rest :
      (l : SavedLevel F) (ls : List (SavedLevel F)) (p : F)
      → l.price ≡ SavedPrice.number p
      → Parsed ls (ok none)
      → Parsed (l ∷ ls) (ok none)
  no_rest l ls p e h = (none_read, none_over)
    where
      none_read : (ks : List (Level F)) → Reads (l ∷ ls) ks → ⊥
      none_read [] r = r
      none_read (k ∷ ks) r = h.0 ks r.2

      none_over : Overflows (l ∷ ls) → ⊥
      none_over (s, inl over) = cc (e, over)
      none_over (s, inr (read, over)) = h.1 over

  all_read :
      (l : SavedLevel F) (ls : List (SavedLevel F)) (s : GridSideType) (p : F) (ps : List (Level F))
      → l.side ≡ some s
      → l.price ≡ SavedPrice.number p
      → Parsed ls (ok (some ps))
      → Parsed (l ∷ ls) (ok (some (record { side = s; price = p } ∷ ps)))
  all_read l ls s p ps es ep h = ((es, ep, h.0), same)
    where
      same : (ks : List (Level F)) → Reads (l ∷ ls) ks → ks ≡ record { side = s; price = p } ∷ ps
      same [] r = absurd r
      same (k ∷ ks) r =
          let side : k.side ≡ s = cc (es, r.0) in
          let price : k.price ≡ p = cc (ep, r.1) in
          ap₂ (λ x xs. x ∷ xs) (ap₂ (λ a b. record { side = a; price = b }) side price) (h.1 ks r.2)

  Reads-no_overflow :
      (saved : List (SavedLevel F)) (ls : List (Level F)) → Reads saved ls → Overflows saved → ⊥
  Reads-no_overflow [] ls r over = over
  Reads-no_overflow (l ∷ saved) [] r over = r
  Reads-no_overflow (l ∷ saved) (k ∷ ks) r (s, inl over) = cc (r.1, over)
  Reads-no_overflow (l ∷ saved) (k ∷ ks) r (s, inr (read, over)) =
      Reads-no_overflow saved ks r.2 over

  add_level-Parsed :
      (l : SavedLevel F) (ls : List (SavedLevel F)) (side : Option GridSideType)
      (price : SavedPrice F) (rest : Result (Option (List (Level F))))
      → l.side ≡ side
      → l.price ≡ price
      → Parsed ls rest
      → Parsed (l ∷ ls) (add_level (parse_level side price) rest)
  add_level-Parsed l ls none price rest es ep h = no_side l ls es
  add_level-Parsed l ls (some s) SavedPrice.rejected rest es ep h = no_price l ls ep
  add_level-Parsed l ls (some s) SavedPrice.overflow rest es ep h = (refl, ((s, es), inl ep))
  add_level-Parsed l ls (some s) (SavedPrice.number p) (err e) es ep h =
      (h.0, ((s, es), inr ((p, ep), h.1)))
  add_level-Parsed l ls (some s) (SavedPrice.number p) (ok none) es ep h = no_rest l ls p ep h
  add_level-Parsed l ls (some s) (SavedPrice.number p) (ok (some ps)) es ep h =
      all_read l ls s p ps es ep h

  parse_levels-Parsed : (saved : List (SavedLevel F)) → Parsed saved (parse_levels saved)
  unfolding parse_levels
  parse_levels-Parsed [] = (tt, only)
    where
      only : (ks : List (Level F)) → Reads [] ks → ks ≡ []
      only [] r = refl
      only (k ∷ ks) r = absurd r
  parse_levels-Parsed (l ∷ ls) =
      add_level-Parsed l ls l.side l.price (parse_levels ls) refl refl (parse_levels-Parsed ls)

module _ {F : Type 0} ⦃fl : Floats F⦄ (saved : List (SavedLevel F)) (g : Grid F) where
  -- What a restore has done, from its result and the grid that it leaves.
  abbrev pub Restored : Result Bool × Grid F → Type 0
  Restored c =
      ((c.0 ≡ ok true)
        × (is_grid_correct c.1.levels ≡ true)
        × Reads saved c.1.levels
        × ((center : F) × (wait_center c.1.levels ≡ ok center)
            × (c.1.original_anchor_price ≡ some center)))
      ⊎ ((c.0 ≡ ok false)
          × (c.1.levels ≡ [])
          × ((ls : List (Level F)) → Reads saved ls → is_grid_correct ls ≡ false)
          × (Overflows saved → ⊥))
      ⊎ ((c.0 ≡ err Error.float_overflow) × (c.1 ≡ g) × Overflows saved)

  take_over-changes :
      (parsed : Result (Option (List (Level F)))) → (take_over parsed g).1.changes ≡ g.changes
  take_over-changes (err e) = refl
  take_over-changes (ok none) = refl
  take_over-changes (ok (some ls)) = elim (Bool-cases (is_grid_correct ls)) [
    | inl good ↦ let (c, ec) = correct-center ls good in rw (good, ec) refl
    | inr bad ↦ rw bad refl
  ]

  take_over-Restored :
      (parsed : Result (Option (List (Level F))))
      → Parsed saved parsed
      → Restored (take_over parsed g)
  take_over-Restored (err e) h = inr (inr (ap err h.0, refl, h.1))
  take_over-Restored (ok none) h = inr (inl (refl, refl, λ ls r. absurd (h.0 ls r), h.1))
  take_over-Restored (ok (some ls)) h = elim (Bool-cases (is_grid_correct ls)) [
    | inl good ↦
        let (c, ec) = correct-center ls good in rw (good, ec) (inl (refl, good, h.0, (c, ec, refl)))
    | inr bad ↦ rw bad (
        inr (
          inl (
            refl,
            refl,
            λ ks r. ap is_grid_correct (h.1 ks r) ∙ bad,
            Reads-no_overflow saved ls h.0,
          )))
  ]

  -- A restore has one of three outcomes. It reports success, and the levels that it leaves are those
  -- of the saved list, one for one; they pass `is_grid_correct`, and the anchor is their center. Or it
  -- reports failure and leaves the grid empty: no levels that the list stands for pass
  -- `is_grid_correct`, and no price that it reaches is too large for a float. Or it raises
  -- `OverflowError` at such a price and changes nothing. It never calls `on_change`.
  pub restore_grid-outcome :
      Restored (restore_grid saved g) × ((restore_grid saved g).1.changes ≡ g.changes)
  unfolding restore_grid
  restore_grid-outcome = (
    take_over-Restored (parse_levels saved) (parse_levels-Parsed saved),
    take_over-changes (parse_levels saved),
  )
