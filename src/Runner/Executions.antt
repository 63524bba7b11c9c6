-- ===== src/Runner/Executions.antt =====
-- The guard against executions that are delivered again: `_seen_exec_id` of
-- apps/gridbot/src/gridbot/runner.py. The keys of the ordered dict are a list, the oldest first.
use grid_bot_validation.Prelude.{
  ℕ, zero, suc, ◌+◌, ◌-◌, ◌≤◌, ◌<◌, ltb, ◌≡◌, refl, sym, ap, ◌∙◌, inl, inr, Bool, true, false, List,
  [], ◌∷◌, ◌++◌, length, length-append, length-drop, drop, if◌then◌else◌, arith, Bool-cases,
}
use grid_bot_validation.Text.{Text}
use grid_bot_validation.Dict.{contains}

-- The `while` loop: the oldest keys go while there are too many.
unfoldable pub evict_oldest : (limit : ℕ) → List Text → List Text
evict_oldest limit [] = []
evict_oldest limit (k ∷ ks) =
    let rest = evict_oldest limit ks in if ltb limit (length (k ∷ ks)) then rest else k ∷ ks

unfoldable pub seen_exec_id : (limit : ℕ) → Text → List Text → Bool × List Text
seen_exec_id limit [] ids = (false, ids)
seen_exec_id limit (c ∷ cs) ids =
    if contains ids (c ∷ cs)
    then (true, ids)
    else (false, evict_oldest limit (ids ++ (c ∷ cs) ∷ []))

-- A run of executions: the ids that are processed, in their order.
unfoldable pub processed : (limit : ℕ) → List Text → List Text → List Text
processed limit [] ids = []
processed limit (e ∷ es) ids =
    let (seen, ids') = seen_exec_id limit e ids in
    let later = processed limit es ids' in if seen then later else e ∷ later

-- The last `n` of a list.
abbrev pub last_of {ℓ} : {A : Type ℓ} → ℕ → List A → List A
last_of n xs = drop (length xs - n) xs

-- An id with a name is added to a history.
abbrev pub known : Text → List Text → List Text
known [] history = history
known (c ∷ cs) history = history ++ (c ∷ cs) ∷ []

abbrev pub is_recent : (limit : ℕ) → Text → List Text → Bool
is_recent limit [] history = false
is_recent limit (c ∷ cs) history = contains (last_of limit history) (c ∷ cs)

-- The same run on an unbounded history: an execution is dropped if its id is among the last `limit` of
-- those that were processed before it.
unfoldable pub fresh_in : (limit : ℕ) → List Text → (history : List Text) → List Text
fresh_in limit [] history = []
fresh_in limit (e ∷ es) history =
    let dropped = fresh_in limit es history in
    let kept = fresh_in limit es (known e history) in
    if is_recent limit e history then dropped else e ∷ kept

module _ {ℓ} {A : Type ℓ} where
  drop_nil : (n : ℕ) → drop {A = A} n [] ≡ []
  drop_nil zero = refl
  drop_nil (suc n) = refl

  drop-drop : (n m : ℕ) (xs : List A) → drop n (drop m xs) ≡ drop (m + n) xs
  drop-drop n zero xs = ap (λ k. drop k xs) (omega arith)
  drop-drop n (suc m) [] = drop_nil n ∙ sym (drop_nil (suc m + n))
  drop-drop n (suc m) (x ∷ xs) =
      drop-drop n m xs ∙ ap (λ k. drop k (x ∷ xs)) {x = suc (m + n)} (omega arith)

  drop-append : (n : ℕ) (xs ys : List A) → n ≤ length xs → drop n (xs ++ ys) ≡ drop n xs ++ ys
  drop-append zero xs ys h = refl
  drop-append (suc n) [] ys h = absurd (omega arith)
  drop-append (suc n) (x ∷ xs) ys h = drop-append n xs ys (omega arith)

evict_oldest-last_of : (limit : ℕ) (ks : List Text) → evict_oldest limit ks ≡ last_of limit ks
unfolding evict_oldest
evict_oldest-last_of limit [] = sym (drop_nil (0 - limit))
evict_oldest-last_of limit (k ∷ ks) = elim (Bool-cases (ltb limit (length (k ∷ ks)))) [
  | inl more ↦
      let n : length (k ∷ ks) - limit ≡ suc (length ks - limit) = ground (arith, more) in
      rw (more, n) (evict_oldest-last_of limit ks)
  | inr few ↦ let n : length (k ∷ ks) - limit ≡ 0 = ground (arith, few) in rw (few, n) refl
]

-- What eviction leaves of the window, when an id comes in.
evict_oldest-append :
    (limit : ℕ) (history : List Text) (e : Text)
    → 0 < limit
    → evict_oldest limit (last_of limit history ++ e ∷ []) ≡ last_of limit (history ++ e ∷ [])
evict_oldest-append limit history e pos =
    let window = last_of limit history in
    let over = length history + 1 - limit in
    let n : length (window ++ e ∷ []) - limit ≡ length window + 1 - limit =
      omega (arith, length-append window (e ∷ [])) in
    let m : length (history ++ e ∷ []) - limit ≡ over =
      omega (arith, length-append history (e ∷ [])) in
    let size = length-drop (length history - limit) history in
    evict_oldest-last_of limit (window ++ e ∷ [])
    ∙ ap (λ k. drop k (window ++ e ∷ [])) n
    ∙ drop-append (length window + 1 - limit) window (e ∷ []) (omega (arith, size))
    ∙ ap (λ ks. ks ++ e ∷ [])
        (drop-drop (length window + 1 - limit) (length history - limit) history
          ∙ ap (λ k. drop k history) {y = over} (omega (arith, size)))
    ∙ sym (ap (λ k. drop k (history ++ e ∷ [])) m ∙ drop-append over history (e ∷ []) (omega arith))

-- The bounded store of ids drops the executions that a store of all of them would drop, where an id is
-- looked up among the last `limit` that were processed: a redelivery within `limit` processed executions is
-- never processed again, and nothing else is dropped.
pub processed-fresh_in :
    (limit : ℕ) (es history : List Text)
    → 0 < limit
    → processed limit es (last_of limit history) ≡ fresh_in limit es history
unfolding processed fresh_in seen_exec_id
processed-fresh_in limit [] history pos = refl
processed-fresh_in limit ([] ∷ es) history pos =
    ap (λ l. [] ∷ l) (processed-fresh_in limit es history pos)
processed-fresh_in limit ((c ∷ cs) ∷ es) history pos =
    elim (Bool-cases (contains (last_of limit history) (c ∷ cs))) [
      | inl seen ↦ rw seen (processed-fresh_in limit es history pos)
      | inr fresh ↦
          rw (fresh, evict_oldest-append limit history (c ∷ cs) pos)
            (ap (λ l. (c ∷ cs) ∷ l) (processed-fresh_in limit es (history ++ (c ∷ cs) ∷ []) pos))
    ]
