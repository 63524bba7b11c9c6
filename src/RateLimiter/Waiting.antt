-- ===== src/RateLimiter/Waiting.antt =====
-- What the answers of the rate limiter say of each other.
use grid_bot_validation.Prelude.{
  ℕ, ◌+◌, ◌-◌, ◌≤◌, ◌<◌, ltb, ◌≡◌, refl, sym, subst, ◌⊎◌, inl, inr, true, List, [], ◌∷◌, length,
  arith, Bool-cases,
}
use grid_bot_validation.RateLimiter.{
  RequestType, RateLimiter, pop_old, cleanup_old_timestamps, get_timestamps, get_limit,
  get_current_count, can_request, wait_time, wait_for, get_available_capacity,
}

length-pop_old : (now window : ℕ) (ts : List ℕ) → length (pop_old now window ts) ≤ length ts
unfolding pop_old
length-pop_old now window [] = omega arith
length-pop_old now window (t ∷ ts) = ground (arith, length-pop_old now window ts)

-- What is left begins with a stamp that is still in the window.
abbrev HeadInside : (now window : ℕ) → List ℕ → Type 0
HeadInside now window [] = Unit {0}
HeadInside now window (t ∷ ts) = now ≤ t + window

pop_old-HeadInside : (now window : ℕ) (ts : List ℕ) → HeadInside now window (pop_old now window ts)
unfolding pop_old
pop_old-HeadInside now window [] = tt
pop_old-HeadInside now window (t ∷ ts) = elim (Bool-cases (ltb (t + window) now)) [
  | inl old ↦ rw old (pop_old-HeadInside now window ts)
  | inr recent ↦ rw recent (ground arith)
]

-- `can_request` and `get_available_capacity` agree: a request may be made exactly where the capacity
-- is above 0, and both calls leave the same state.
pub can_request-capacity :
    (r : RequestType) (now : ℕ) (s : RateLimiter)
    → ((can_request r now s).0 ≡ ltb 0 (get_available_capacity r now s).0)
      × ((can_request r now s).1 ≡ (get_available_capacity r now s).1)
unfolding can_request get_available_capacity
can_request-capacity r now s = (ground arith, ground arith)

-- The two outcomes of `wait_time` at a time when no backoff runs.
wait_time_cases :
    (r : RequestType) (now : ℕ) (s : RateLimiter)
    → s.backoff_until ≤ now
    → let s' = cleanup_old_timestamps now s in
      ((get_current_count r s' < get_limit r s') × (wait_time r now s ≡ (0, s')))
      ⊎ (wait_time r now s ≡ (wait_for now s'.config.window (get_timestamps r s'), s'))
unfolding wait_time
wait_time_cases r now s h =
    let s' = cleanup_old_timestamps now s in
    elim (Bool-cases (ltb (get_current_count r s') (get_limit r s'))) [
      | inl free ↦ inl (ground arith, ground arith)
      | inr full ↦ inr (ground arith)
    ]

timestamps-HeadInside :
    (r : RequestType) (now : ℕ) (s : RateLimiter)
    → HeadInside now s.config.window (get_timestamps r (cleanup_old_timestamps now s))
unfolding cleanup_old_timestamps
timestamps-HeadInside RequestType.order now s =
    pop_old-HeadInside now s.config.window s.order_timestamps
timestamps-HeadInside RequestType.query now s =
    pop_old-HeadInside now s.config.window s.query_timestamps

length-timestamps :
    (r : RequestType) (now : ℕ) (s : RateLimiter)
    → get_current_count r (cleanup_old_timestamps now s) ≤ get_current_count r s
unfolding cleanup_old_timestamps
length-timestamps RequestType.order now s = length-pop_old now s.config.window s.order_timestamps
length-timestamps RequestType.query now s = length-pop_old now s.config.window s.query_timestamps

-- One microsecond after its wait, the oldest stamp has left the window.
length-pop_old_later :
    (now window limit : ℕ) (ts : List ℕ)
    → HeadInside now window ts
    → 0 < limit
    → length ts ≤ limit
    → length (pop_old (now + wait_for now window ts + 1) window ts) < limit
unfolding pop_old
length-pop_old_later now window limit [] inside positive few = omega arith
length-pop_old_later now window limit (t ∷ ts) inside positive few =
    let later = now + ((t + window) - now) + 1 in ground (arith, length-pop_old later window ts)

count-later :
    (r : RequestType) (now : ℕ) (s : RateLimiter)
    → HeadInside now s.config.window (get_timestamps r s)
    → 0 < get_limit r s
    → get_current_count r s ≤ get_limit r s
    → let later = now + wait_for now s.config.window (get_timestamps r s) + 1 in
      get_current_count r (cleanup_old_timestamps later s) < get_limit r s
unfolding cleanup_old_timestamps
count-later RequestType.order now s =
    length-pop_old_later now s.config.window s.config.order_rate s.order_timestamps
count-later RequestType.query now s =
    length-pop_old_later now s.config.window s.config.query_rate s.query_timestamps

can_request-free :
    (r : RequestType) (now : ℕ) (s : RateLimiter)
    → s.backoff_until ≤ now
    → get_current_count r (cleanup_old_timestamps now s) < get_limit r s
    → (can_request r now s).0 ≡ true
unfolding can_request cleanup_old_timestamps
can_request-free RequestType.order now s idle free = ground arith
can_request-free RequestType.query now s idle free = ground arith

limit-kept :
    (r : RequestType) (now : ℕ) (s : RateLimiter)
    → get_limit r (cleanup_old_timestamps now s) ≡ get_limit r s
unfolding cleanup_old_timestamps
limit-kept RequestType.order now s = refl
limit-kept RequestType.query now s = refl

-- Where no backoff runs, the limit is above 0 and no more stamps are held than the limit, a client
-- that waits for one microsecond longer than `wait_time` says may make its request.
pub can_request-after_wait :
    (r : RequestType) (now : ℕ) (s : RateLimiter)
    → s.backoff_until ≤ now
    → 0 < get_limit r s
    → get_current_count r s ≤ get_limit r s
    → let (wait, s') = wait_time r now s in (can_request r (now + wait + 1) s').0 ≡ true
unfolding cleanup_old_timestamps
can_request-after_wait r now s idle positive few =
    let s' = cleanup_old_timestamps now s in
    let kept = limit-kept r now s in
    let fewer = length-timestamps r now s in
    elim (wait_time_cases r now s idle) [
      | inl (free, outcome) ↦
          subst (λ x. (can_request r (now + x.0 + 1) x.1).0 ≡ true) (sym outcome)
            (can_request-free r (now + 0 + 1) s' (omega arith)
              (omega (arith, free, length-timestamps r (now + 0 + 1) s')))
      | inr outcome ↦
          let wait = wait_for now s.config.window (get_timestamps r s') in
          subst (λ x. (can_request r (now + x.0 + 1) x.1).0 ≡ true) (sym outcome)
            (can_request-free r (now + wait + 1) s' (omega arith) (
              count-later r now s' (timestamps-HeadInside r now s) (omega (arith, kept))
                (omega (arith, kept, fewer))))
    ]
