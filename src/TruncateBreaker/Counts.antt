-- ===== src/TruncateBreaker/Counts.antt =====
-- Counts of times: for apps/gridbot/src/gridbot/truncate_breaker.py.
use grid_bot_validation.Prelude.{
  ℕ, suc, ◌+◌, ◌≤◌, ltb, leb, ◌≡◌, refl, false, ◌&&◌, List, [], ◌∷◌, ◌++◌, length, if◌then◌else◌,
  arith,
}
use grid_bot_validation.TruncateBreaker.{evict_old}

-- The times at `a` or later.
unfoldable pub count_from : ℕ → List ℕ → ℕ
count_from a [] = 0
count_from a (t ∷ ts) = let rest = count_from a ts in if leb a t then suc rest else rest

-- The times from `a` on and before `b`.
unfoldable pub count_between : (a b : ℕ) → List ℕ → ℕ
count_between a b [] = 0
count_between a b (t ∷ ts) =
    let rest = count_between a b ts in if leb a t && ltb t b then suc rest else rest

pub count_from-add :
    (a t : ℕ) (ts : List ℕ) → count_from a (ts ++ t ∷ []) ≡ count_from a ts + count_from a (t ∷ [])
unfolding count_from
count_from-add a t [] = omega arith
count_from-add a t (x ∷ xs) = ground (arith, count_from-add a t xs)

pub count_between-add :
    (a b t : ℕ) (ts : List ℕ)
    → count_between a b (ts ++ t ∷ []) ≡ count_between a b ts + count_between a b (t ∷ [])
unfolding count_between
count_between-add a b t [] = omega arith
count_between-add a b t (x ∷ xs) = ground (arith, count_between-add a b t xs)

pub count_between_le : (a b : ℕ) (ts : List ℕ) → count_between a b ts ≤ count_from a ts
unfolding count_between count_from
count_between_le a b [] = omega arith
count_between_le a b (t ∷ ts) = ground (arith, count_between_le a b ts)

pub count_from_le : (a : ℕ) (ts : List ℕ) → count_from a ts ≤ length ts
unfolding count_from
count_from_le a [] = omega arith
count_from_le a (t ∷ ts) = ground (arith, count_from_le a ts)

-- What is evicted is older than the window.
pub count_from-evict_old :
    (a window now : ℕ) (ts : List ℕ)
    → now ≤ a + window
    → count_from a (evict_old window now ts) ≡ count_from a ts
unfolding count_from evict_old
count_from-evict_old a window now [] h = refl
count_from-evict_old a window now (t ∷ ts) h = ground (arith, count_from-evict_old a window now ts)

pub one_inside : (a b t : ℕ) → count_between a b (t ∷ []) ≤ 1
unfolding count_between
one_inside a b t = ground arith

pub none_inside : (a b t : ℕ) → (leb a t && ltb t b) ≡ false → count_between a b (t ∷ []) ≡ 0
unfolding count_between
none_inside a b t h = ground (arith, h)
