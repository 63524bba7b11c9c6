-- ===== src/SafetyCaps/Window.antt =====
-- The trailing window of accepted orders, as the executor drives it: `execute_place` of
-- apps/gridbot/src/gridbot/executor.py asks `rate_limited`, sends the order if it may, and records
-- it if the exchange accepts it.
use grid_bot_validation.Prelude.{
  ℕ, ◌+◌, ◌≤◌, ◌<◌, ◌≡◌, refl, Bool, true, ◌&&◌, some, List, [], ◌∷◌, ◌++◌, arith, ltb, leb,
  if◌then◌else◌, length, length-append, append-nil, append_assoc, ap, dec_lt,
}
use grid_bot_validation.SafetyCaps.{
  SafetyCaps, SafetyCapsConfig, init, rate_limited, record_accepted_submission, evict,
  rate_window_length,
}

-- One call of `execute_place` outside shadow mode: the clock when the cap is asked, the answer of
-- the exchange, and the clock when an accepted order is recorded.
pub record Attempt : Type 0 where
  pub asked : ℕ
  pub accepted : Bool
  pub recorded : ℕ

-- What reached the exchange and was accepted: at most one time stamp.
unfoldable pub submit : SafetyCaps → Attempt → List ℕ × SafetyCaps
submit s a =
    let (limited, s') = rate_limited s a.asked in
    if limited
    then ([], s')
    else if a.accepted
    then (a.recorded ∷ [], record_accepted_submission s' a.recorded)
    else ([], s')

unfoldable pub submit_all : SafetyCaps → List Attempt → List ℕ × SafetyCaps
submit_all s [] = ([], s)
submit_all s (a ∷ as') =
    let (now, s') = submit s a in let (later, s'') = submit_all s' as' in (now ++ later, s'')

-- The clock is monotonic: each reading is at least the one before.
abbrev pub IsMonotonic : ℕ → List Attempt → Type 0
IsMonotonic now [] = Unit {0}
IsMonotonic now (a ∷ as') = (now ≤ a.asked) × (a.asked ≤ a.recorded) × IsMonotonic a.recorded as'

-- How many of the stamps lie in the 60 seconds that end at `t`: after `t - 60 s`, up to `t`.
abbrev pub count_in : ℕ → List ℕ → ℕ
count_in t [] = 0
count_in t (x ∷ xs) = (if leb x t && ltb t (x + rate_window_length) then 1 else 0) + count_in t xs

count_in-append : (t : ℕ) (xs ys : List ℕ) → count_in t (xs ++ ys) ≡ count_in t xs + count_in t ys
count_in-append t [] ys = omega arith
count_in-append t (x ∷ xs) ys = omega (arith, count_in-append t xs ys)

count_in-le-length : (t : ℕ) (xs : List ℕ) → count_in t xs ≤ length xs
count_in-le-length t [] = omega arith
count_in-le-length t (x ∷ xs) = ground (arith, count_in-le-length t xs)

-- What `evict` drops counts no more from `now` on.
count_in-evict : (t now : ℕ) (xs : List ℕ) → now ≤ t → count_in t (evict now xs) ≡ count_in t xs
unfolding evict
count_in-evict t now [] h = refl
count_in-evict t now (x ∷ xs) h = ground (arith, count_in-evict t now xs h)

abbrev AllFrom : ℕ → List ℕ → Type 0
AllFrom now [] = Unit {0}
AllFrom now (x ∷ xs) = (now ≤ x) × AllFrom now xs

count_in-later : (t now : ℕ) (xs : List ℕ) → t < now → AllFrom now xs → count_in t xs ≡ 0
count_in-later t now [] h a = refl
count_in-later t now (x ∷ xs) h a = ground (arith, count_in-later t now xs h a.1)

AllFrom-mono : (m n : ℕ) (xs : List ℕ) → m ≤ n → AllFrom n xs → AllFrom m xs
AllFrom-mono m n [] h a = tt
AllFrom-mono m n (x ∷ xs) h a = (omega arith, AllFrom-mono m n xs h a.1)

AllFrom-append : (n : ℕ) (xs ys : List ℕ) → AllFrom n xs → AllFrom n ys → AllFrom n (xs ++ ys)
AllFrom-append n [] ys a b = b
AllFrom-append n (x ∷ xs) ys a b = (a.0, AllFrom-append n xs ys a.1 b)

count_in-evict-le : (t now : ℕ) (xs : List ℕ) → count_in t (evict now xs) ≤ count_in t xs
unfolding evict
count_in-evict-le t now [] = omega arith
count_in-evict-le t now (x ∷ xs) = ground (arith, count_in-evict-le t now xs)

-- The cap is set, and the window holds at most `cap` stamps of any 60 seconds.
record IsCapped (cap : ℕ) (s : SafetyCaps) : Type 0 where
  on : s.enabled ≡ true
  set_to : s.max_orders_per_minute ≡ some cap
  few : (t : ℕ) → count_in t s.rate_window ≤ cap

module _ (cap : ℕ) (s : SafetyCaps) (a : Attempt) (c : IsCapped cap s) where
  submit-window : (submit s a).1.rate_window ≡ evict a.asked s.rate_window ++ (submit s a).0
  unfolding submit rate_limited record_accepted_submission
  submit-window = ground (arith, c.on, c.set_to, append-nil (evict a.asked s.rate_window))

  submit-AllFrom : a.asked ≤ a.recorded → AllFrom a.asked (submit s a).0
  unfolding submit rate_limited
  submit-AllFrom h = ground (arith, c.on, c.set_to)

  submit-IsCapped : IsCapped cap (submit s a).1
  unfolding submit rate_limited record_accepted_submission
  submit-IsCapped = record {
    on = ground (arith, c.on, c.set_to);
    set_to = ground (arith, c.on, c.set_to);
    few = λ t.
        let old = evict a.asked s.rate_window in
        ground (
          arith,
          c.on,
          c.set_to,
          c.few t,
          count_in-evict-le t a.asked s.rate_window,
          count_in-le-length t (old ++ a.recorded ∷ []),
          length-append old (a.recorded ∷ []),
        );
  }

submit_all-AllFrom :
    (cap now : ℕ) (s : SafetyCaps) (as' : List Attempt)
    → IsCapped cap s
    → IsMonotonic now as'
    → AllFrom now (submit_all s as').0
unfolding submit_all
submit_all-AllFrom cap now s [] c m = tt
submit_all-AllFrom cap now s (a ∷ as') c m =
    AllFrom-append now _ _ (AllFrom-mono now a.asked _ m.0 (submit-AllFrom cap s a c m.1)) (
      AllFrom-mono now a.recorded _ (omega arith)
        (submit_all-AllFrom cap a.recorded _ as' (submit-IsCapped cap s a c) m.2))

submit_all-count_in :
    (cap now t : ℕ) (s : SafetyCaps) (as' : List Attempt)
    → IsCapped cap s
    → IsMonotonic now as'
    → count_in t (s.rate_window ++ (submit_all s as').0) ≤ cap
unfolding submit_all
submit_all-count_in cap now t s [] c m = rw append-nil (c.few t)
submit_all-count_in cap now t s (a ∷ as') c m =
    let one = submit s a in
    let rest = submit_all one.1 as' in
    let c' = submit-IsCapped cap s a c in
    let later : AllFrom a.asked (one.0 ++ rest.0) =
      AllFrom-append a.asked _ _ (submit-AllFrom cap s a c m.1)
        (AllFrom-mono a.asked a.recorded _ m.1 (submit_all-AllFrom cap a.recorded _ as' c' m.2)) in
    let ih = submit_all-count_in cap a.recorded t one.1 as' c' m.2 in
    elim (dec_lt t a.asked) [
      | yes early ↦ omega (
        arith,
        c.few t,
        count_in-append t s.rate_window (one.0 ++ rest.0),
        count_in-later t a.asked (one.0 ++ rest.0) early later,
      )
      | no late ↦ omega (
        arith,
        ih,
        ap (λ w. count_in t (w ++ rest.0)) (submit-window cap s a c),
        ap (count_in t) (append_assoc (evict a.asked s.rate_window) one.0 rest.0),
        count_in-append t s.rate_window (one.0 ++ rest.0),
        count_in-append t (evict a.asked s.rate_window) (one.0 ++ rest.0),
        count_in-evict t a.asked s.rate_window (omega arith),
      )
    ]

-- With the rate cap set to `cap` and a monotonic clock, whatever the attempts and the exchange's
-- answers, no 60 seconds ever hold more than `cap` accepted orders: not only the windows that end
-- when a check is made, but those that end at any time `t`.
pub submit_all-rate_bound :
    (cap now t : ℕ) (config : SafetyCapsConfig) (as' : List Attempt)
    → config.enabled ≡ true
    → config.max_orders_per_minute ≡ some cap
    → IsMonotonic now as'
    → count_in t (submit_all (init config) as').0 ≤ cap
unfolding init
submit_all-rate_bound cap now t config as' on set_to m =
    submit_all-count_in cap now t (init config) as'
      (record { on = on; set_to = set_to; few = λ t. omega arith }) m

-- Oldest first, and none after `now`.
abbrev IsAscending : ℕ → List ℕ → Type 0
IsAscending now [] = Unit {0}
IsAscending now (x ∷ xs) = (x ≤ now) × AllFrom x xs × IsAscending now xs

count_in-ascending :
    (now x : ℕ) (xs : List ℕ)
    → now < x + rate_window_length
    → AllFrom x xs
    → IsAscending now xs
    → count_in now xs ≡ length xs
count_in-ascending now x [] h a s = refl
count_in-ascending now x (y ∷ ys) h a s =
    ground (arith, count_in-ascending now y ys (omega arith) s.1 s.2)

length-evict :
    (now : ℕ) (xs : List ℕ) → IsAscending now xs → length (evict now xs) ≡ count_in now xs
unfolding evict
length-evict now [] s = refl
length-evict now (x ∷ xs) s = elim (dec_lt now (x + rate_window_length)) [
  | yes inside ↦ ground (arith, count_in-ascending now x xs inside s.1 s.2)
  | no outside ↦ ground (arith, length-evict now xs s.2)
]

-- The answer of `rate_limited` is exact: with the cap set and a window in time order, it refuses
-- exactly when the 60 seconds that end now already hold `cap` stamps.
pub rate_limited-exact :
    (cap now : ℕ) (s : SafetyCaps)
    → s.enabled ≡ true
    → s.max_orders_per_minute ≡ some cap
    → IsAscending now s.rate_window
    → (rate_limited s now).0 ≡ leb cap (count_in now s.rate_window)
unfolding rate_limited
rate_limited-exact cap now s on set_to w =
    ground (arith, on, set_to, length-evict now s.rate_window w)
