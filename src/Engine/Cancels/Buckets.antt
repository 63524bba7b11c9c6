-- ===== src/Engine/Cancels/Buckets.antt =====
-- Orders counted by their id through the sort, the grouping by price and the choice of survivors of
-- packages/gridcore/src/gridcore/engine.py.
use grid_bot_validation.Prelude.{
  ℕ, suc, ◌+◌, ◌≤◌, ◌<◌, ◌≡◌, refl, ap, sym, subst, ◌∙◌, Bool, true, false, ◌==◌, Option, none,
  some, List, [], ◌∷◌, ◌++◌, arith, Bool-cases, Option-cases, inl, inr, ◌⊎◌,
}
use grid_bot_validation.Float.{Floats}
use grid_bot_validation.Grid.Level.{GridSideType, Level, is_side}
use grid_bot_validation.Engine.Types.{Limit}
use grid_bot_validation.Engine.Survivors.{
  insert_sorted, sorted, enumerate, Buckets, Placed, add_to_bucket, group_from, limits_by_price,
  matching, pool_of, pool, first_filled, select_from, select_survivor, extras_at, split_buckets,
  has_fill_history, grid_side_at,
}

-- How often an id stands among the orders.
abbrev pub one_if : Bool → ℕ
one_if true = 1
one_if false = 0

module _ {F : Type 0} where
  abbrev pub occurs : ℕ → List (Limit F) → ℕ
  occurs k [] = 0
  occurs k (l ∷ ls) = one_if (l.order_id == k) + occurs k ls

  pub occurs-append :
      (k : ℕ) (xs ys : List (Limit F)) → occurs k (xs ++ ys) ≡ occurs k xs + occurs k ys
  occurs-append k [] ys = omega arith
  occurs-append k (x ∷ xs) ys = omega (arith, occurs-append k xs ys)

  occurs-insert_sorted :
      (k : ℕ) (before : Limit F → Limit F → Bool) (a : Limit F) (bs : List (Limit F))
      → occurs k (insert_sorted before a bs) ≡ one_if (a.order_id == k) + occurs k bs
  unfolding insert_sorted
  occurs-insert_sorted k before a [] = refl
  occurs-insert_sorted k before a (b ∷ bs) = elim (Bool-cases (before b a)) [
    | inl later ↦ rw later (omega (arith, occurs-insert_sorted k before a bs))
    | inr here ↦ rw here
  ]

  occurs-sorted :
      (k : ℕ) (before : Limit F → Limit F → Bool) (as' : List (Limit F))
      → occurs k (sorted before as') ≡ occurs k as'
  unfolding sorted
  occurs-sorted k before [] = refl
  occurs-sorted k before (a ∷ as') =
      omega (arith, occurs-insert_sorted k before a (sorted before as'), occurs-sorted k before as')

  abbrev pub occurs_buckets : ℕ → Buckets F → ℕ
  occurs_buckets k [] = 0
  occurs_buckets k ((price, bucket) ∷ rest) = occurs k bucket + occurs_buckets k rest

  -- `p` is one of the placed orders.
  abbrev pub Here : Placed F → List (Placed F) → Type 0
  Here p [] = ⊥
  Here p (q ∷ qs) = (p ≡ q) ⊎ Here p qs

  Here-bound : (p : Placed F) (i : ℕ) (ls : List (Limit F)) → Here p (enumerate i ls) → i ≤ p.0
  unfolding enumerate
  Here-bound p i [] h = absurd h
  Here-bound p i (l ∷ ls) (inl e) = omega (arith, ap (λ (q : Placed F). q.0) e)
  Here-bound p i (l ∷ ls) (inr h) = omega (arith, Here-bound p (suc i) ls h)

  -- Dropping a position before the first drops nothing.
  extras_at-before :
      (k j i : ℕ) (ls : List (Limit F))
      → j < i
      → occurs k (extras_at j (enumerate i ls)) ≡ occurs k ls
  unfolding extras_at enumerate
  extras_at-before k j i [] h = refl
  extras_at-before k j i (l ∷ ls) h = ground (arith, extras_at-before k j (suc i) ls)

  extras_at-Here :
      (k : ℕ) (p : Placed F) (i : ℕ) (ls : List (Limit F))
      → Here p (enumerate i ls)
      → one_if (p.1.order_id == k) + occurs k (extras_at p.0 (enumerate i ls)) ≡ occurs k ls
  unfolding extras_at enumerate
  extras_at-Here k p i [] h = absurd h
  extras_at-Here k p i (l ∷ ls) (inl e) = ground (
    arith,
    ap (λ (q : Placed F). q.0) e,
    ap (λ (q : Placed F). q.1) e,
    extras_at-before k p.0 (suc i) ls,
  )
  extras_at-Here k p i (l ∷ ls) (inr h) =
      ground (arith, Here-bound p (suc i) ls h, extras_at-Here k p (suc i) ls h)

  matching-Here :
      (side : GridSideType) (p : Placed F) (ps : List (Placed F))
      → Here p (matching side ps)
      → Here p ps
  unfolding matching
  matching-Here side p [] h = h
  matching-Here side p (q ∷ qs) h = elim (Bool-cases (is_side q.1.side side)) [
    | inl fits ↦ elim (rw fits at h) [ inl e ↦ inl e | inr r ↦ inr (matching-Here side p qs r) ]
    | inr other ↦ inr (matching-Here side p qs (rw other at h))
  ]

  pool_of-Here :
      (p : Placed F) (all some_of : List (Placed F))
      → (Here p some_of → Here p all)
      → Here p (pool_of all some_of)
      → Here p all
  pool_of-Here p all [] sub h = h
  pool_of-Here p all (q ∷ qs) sub h = sub h

  pool-Here :
      (p : Placed F) (all : List (Placed F)) (side : Option GridSideType)
      → Here p (pool all side)
      → Here p all
  unfolding pool
  pool-Here p all none h = h
  pool-Here p all (some side) h =
      pool_of-Here p all (matching side all) (matching-Here side p all) h

  first_filled-Here :
      (d : Placed F) (ps : List (Placed F)) → (first_filled d ps ≡ d) ⊎ Here (first_filled d ps) ps
  unfolding first_filled
  first_filled-Here d [] = inl refl
  first_filled-Here d (p ∷ ps) = elim (Bool-cases (has_fill_history p.1)) [
    | inl filled ↦ rw filled (inr (inl refl))
    | inr fresh ↦
        let e : first_filled d (p ∷ ps) ≡ first_filled d ps = rw fresh in
        subst (λ q. (q ≡ d) ⊎ Here q (p ∷ ps)) (sym e)
          (elim (first_filled-Here d ps) [ inl same ↦ inl same | inr h ↦ inr (inr h) ])
  ]

  select_from-Here : (p : Placed F) (ps : List (Placed F)) → select_from ps ≡ some p → Here p ps
  unfolding select_from
  select_from-Here p [] e = cc
  select_from-Here p (q ∷ qs) e =
      let e' : first_filled q (q ∷ qs) ≡ p = cc in
      elim (first_filled-Here q (q ∷ qs)) [
        | inl same ↦ inl (sym e' ∙ same)
        | inr h ↦ subst (λ x. Here x (q ∷ qs)) e' h
      ]

  select_survivor-Here :
      (p : Placed F) (bucket : List (Limit F)) (side : Option GridSideType)
      → select_survivor bucket side ≡ some p
      → Here p (enumerate 0 bucket)
  unfolding select_survivor
  select_survivor-Here p bucket side e =
      pool-Here p (enumerate 0 bucket) side (select_from-Here p _ e)

  abbrev pub occurs_survivors : ℕ → List (F × Limit F) → ℕ
  occurs_survivors k [] = 0
  occurs_survivors k ((price, l) ∷ rest) = one_if (l.order_id == k) + occurs_survivors k rest

module _ {F : Type 0} ⦃fl : Floats F⦄ where
  occurs-add_to_bucket :
      (k : ℕ) (price : F) (l : Limit F) (bs : Buckets F)
      → occurs_buckets k (add_to_bucket price l bs) ≡ one_if (l.order_id == k) + occurs_buckets k bs
  unfolding add_to_bucket
  occurs-add_to_bucket k price l [] = omega arith
  occurs-add_to_bucket k price l ((key, bucket) ∷ rest) = elim (Bool-cases (fl.eq key price)) [
    | inl hit ↦ rw hit (omega (arith, occurs-append k bucket (l ∷ [])))
    | inr miss ↦ rw miss (omega (arith, occurs-add_to_bucket k price l rest))
  ]

  occurs-group_from :
      (k : ℕ) (bs : Buckets F) (ls : List (Limit F))
      → occurs_buckets k (group_from bs ls) ≡ occurs_buckets k bs + occurs k ls
  unfolding group_from
  occurs-group_from k bs [] = omega arith
  occurs-group_from k bs (l ∷ ls) =
      let price = fl.round8 l.price in
      omega (
        arith,
        occurs-group_from k (add_to_bucket price l bs) ls,
        occurs-add_to_bucket k price l bs,
      )

  pub occurs-limits_by_price :
      (k : ℕ) (ls : List (Limit F)) → occurs_buckets k (limits_by_price ls) ≡ occurs k ls
  unfolding limits_by_price
  occurs-limits_by_price k ls =
      let before = λ (a b : Limit F). fl.lt a.price b.price in
      omega (arith, occurs-group_from k [] (sorted before ls), occurs-sorted k before ls)

  -- Survivors and extras together are no more than the orders of the buckets.
  pub occurs-split_buckets :
      (k : ℕ) (levels : List (Level F)) (bs : Buckets F)
      → let (survivors, extras) = split_buckets levels bs in
        occurs_survivors k survivors + occurs k extras ≤ occurs_buckets k bs
  unfolding split_buckets
  occurs-split_buckets k levels [] = omega arith
  occurs-split_buckets k levels ((price, bucket) ∷ rest) =
      elim (Option-cases (select_survivor bucket (grid_side_at levels price))) [
        | inl e ↦ ground (arith, occurs-split_buckets k levels rest)
        | inr (p, e) ↦
            let here = select_survivor-Here p bucket (grid_side_at levels price) e in
            ground (
              arith,
              occurs-split_buckets k levels rest,
              extras_at-Here k p 0 bucket here,
              occurs-append k (extras_at p.0 (enumerate 0 bucket)) (split_buckets levels rest).1,
            )
      ]
