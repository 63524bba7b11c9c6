-- ===== src/Grid/Check/Pattern.antt =====
-- What `is_grid_correct` accepts, said without its state machine.
use grid_bot_validation.Prelude.{
  ℕ, zero, suc, ◌≡◌, refl, ap, true, false, List, [], ◌∷◌, ◌++◌, arith, replicate, ◌↔◌,
}
use grid_bot_validation.Float.{Floats}
use grid_bot_validation.Float.Order.{IsOrdered}
use grid_bot_validation.Grid.Level.{GridSideType, buy, sell, wait, Level, prices, sides}
use grid_bot_validation.Grid.Check.{
  Phase, Scan, scan, scan_start, sorted_from, is_price_sorted, is_grid_correct,
}

-- One or more BUY levels, then any number of WAIT levels, then one or more SELL levels.
abbrev pub Zones : List GridSideType → Type 0
Zones xs =
    (b : ℕ) × (w : ℕ) × (s : ℕ) × (xs
      ≡ replicate (suc b) buy ++ (replicate w wait ++ replicate (suc s) sell))

abbrev in_sells : Scan
in_sells = record { current_state = Phase.in_sell; has_seen_buy = true; has_seen_sell = true }

abbrev in_waits : Scan
in_waits = record { current_state = Phase.in_wait; has_seen_buy = true; has_seen_sell = false }

abbrev in_buys : Scan
in_buys = record { current_state = Phase.in_buy; has_seen_buy = true; has_seen_sell = false }

from_sells : (xs : List GridSideType) → scan in_sells xs ≡ true → (s : ℕ) × (xs ≡ replicate s sell)
unfolding scan
from_sells [] h = (0, refl)
from_sells (buy ∷ xs) h = cc
from_sells (wait ∷ xs) h = cc
from_sells (sell ∷ xs) h = let (s, e) = from_sells xs h in (suc s, ap (◌∷◌ sell) e)

from_waits :
    (xs : List GridSideType)
    → scan in_waits xs ≡ true
    → (w : ℕ) × (s : ℕ) × (xs ≡ replicate w wait ++ replicate (suc s) sell)
unfolding scan
from_waits [] h = cc
from_waits (buy ∷ xs) h = cc
from_waits (wait ∷ xs) h = let (w, s, e) = from_waits xs h in (suc w, s, ap (◌∷◌ wait) e)
from_waits (sell ∷ xs) h = let (s, e) = from_sells xs h in (0, s, ap (◌∷◌ sell) e)

from_buys :
    (xs : List GridSideType)
    → scan in_buys xs ≡ true
    → (b : ℕ) × (w : ℕ) × (s : ℕ) × (xs
        ≡ replicate b buy ++ (replicate w wait ++ replicate (suc s) sell))
unfolding scan
from_buys [] h = cc
from_buys (buy ∷ xs) h = let (b, w, s, e) = from_buys xs h in (suc b, w, s, ap (◌∷◌ buy) e)
from_buys (wait ∷ xs) h = let (w, s, e) = from_waits xs h in (0, suc w, s, ap (◌∷◌ wait) e)
from_buys (sell ∷ xs) h = let (s, e) = from_sells xs h in (0, 0, s, ap (◌∷◌ sell) e)

scan-Zones : (xs : List GridSideType) → scan scan_start xs ≡ true → Zones xs
unfolding scan
scan-Zones [] h = cc
scan-Zones (buy ∷ xs) h = let (b, w, s, e) = from_buys xs h in (b, w, s, ap (◌∷◌ buy) e)
scan-Zones (wait ∷ xs) h = cc
scan-Zones (sell ∷ xs) h = cc

to_sells : (s : ℕ) → scan in_sells (replicate s sell) ≡ true
unfolding scan
to_sells zero = refl
to_sells (suc s) = to_sells s

to_waits : (w s : ℕ) → scan in_waits (replicate w wait ++ replicate (suc s) sell) ≡ true
unfolding scan
to_waits zero s = to_sells s
to_waits (suc w) s = to_waits w s

to_buys_wait : (w s : ℕ) → scan in_buys (replicate w wait ++ replicate (suc s) sell) ≡ true
unfolding scan
to_buys_wait zero s = to_sells s
to_buys_wait (suc w) s = to_waits w s

to_buys :
    (b w s : ℕ)
    → scan in_buys (replicate b buy ++ (replicate w wait ++ replicate (suc s) sell)) ≡ true
unfolding scan
to_buys zero w s = to_buys_wait w s
to_buys (suc b) w s = to_buys b w s

Zones-scan : (xs : List GridSideType) → Zones xs → scan scan_start xs ≡ true
unfolding scan
Zones-scan xs (b, w, s, e) = rw e (to_buys b w s)

module _ {F : Type 0} (fl : Floats F) where
  -- Every one of the prices is above `x`.
  abbrev pub Above : F → List F → Type 0
  Above x [] = Unit {0}
  Above x (y ∷ ys) = (fl.lt x y ≡ true) × Above x ys

  -- Each price is below all that come after it.
  abbrev pub IsAscending : List F → Type 0
  IsAscending [] = Unit {0}
  IsAscending (x ∷ xs) = Above x xs × IsAscending xs

module _ {F : Type 0} ⦃fl : Floats F⦄ (o : IsOrdered fl) where
  Above-mono : (x y : F) (zs : List F) → fl.lt x y ≡ true → Above fl y zs → Above fl x zs
  Above-mono x y [] h a = tt
  Above-mono x y (z ∷ zs) h a = (o.lt_trans x y z h a.0, Above-mono x y zs h a.1)

  sorted_from-IsAscending :
      (x : F) (ls : List (Level F))
      → sorted_from x ls ≡ true
      → Above fl x (prices ls) × IsAscending fl (prices ls)
  unfolding sorted_from
  sorted_from-IsAscending x [] h = (tt, tt)
  sorted_from-IsAscending x (l ∷ ls) h =
      let up : fl.lt x l.price ≡ true = ground (arith, o.le-eq-not-lt l.price x) in
      let rest = sorted_from-IsAscending l.price ls (ground arith) in
      ((up, Above-mono x l.price (prices ls) up rest.0), rest)

  IsAscending-sorted_from :
      (x : F) (ls : List (Level F))
      → Above fl x (prices ls)
      → IsAscending fl (prices ls)
      → sorted_from x ls ≡ true
  unfolding sorted_from
  IsAscending-sorted_from x [] a s = refl
  IsAscending-sorted_from x (l ∷ ls) a s =
      ground (arith, o.le-eq-not-lt l.price x, IsAscending-sorted_from l.price ls s.0 s.1)

  -- `is_grid_correct` accepts a grid exactly if its prices are above -inf and strictly ascending
  -- from each level to all later ones, and its sides are one or more BUY, then any number of WAIT,
  -- then one or more SELL.
  pub is_grid_correct_iff :
      (ls : List (Level F))
      → (is_grid_correct ls ≡ true)
        ↔ (Above fl fl.neg_inf (prices ls) × IsAscending fl (prices ls) × Zones (sides ls))
  unfolding is_grid_correct is_price_sorted
  is_grid_correct_iff ls = (
    λ h.
        let up : sorted_from fl.neg_inf ls ≡ true = ground arith in
        let (a, s) = sorted_from-IsAscending fl.neg_inf ls up in
        (a, s, scan-Zones (sides ls) (ground arith)),
    λ (a, s, z). ground (arith, IsAscending-sorted_from fl.neg_inf ls a s, Zones-scan (sides ls) z),
  )
