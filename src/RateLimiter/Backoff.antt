-- ===== src/RateLimiter/Backoff.antt =====
-- The backoff of the rate limiter over a run of refusals by the exchange.
use grid_bot_validation.Prelude.{
  ℕ, ◌+◌, ◌-◌, ◌*◌, ◌^◌, ◌<◌, ◌≤◌, ◌≡◌, refl, ap, ◌∙◌, ◌⊎◌, inl, inr, List, [], ◌∷◌, length, leb,
  arith, Bool-cases,
}
use grid_bot_validation.Outcome.{ok, err, Error}
use grid_bot_validation.RateLimiter.{RateLimiter, record_rate_limit_hit, min_of}

-- A run of refusals at these times, with no success in between.
pub hits : List ℕ → RateLimiter → RateLimiter
unfolding record_rate_limit_hit
hits [] s = s
hits (t ∷ ts) s = hits ts (record_rate_limit_hit t s).1

hits-kept :
    (ts : List ℕ) (s : RateLimiter)
    → ((hits ts s).consecutive_429s ≡ s.consecutive_429s + length ts)
      × ((hits ts s).config ≡ s.config)
unfolding hits record_rate_limit_hit
hits-kept [] s = (omega arith, refl)
hits-kept (t ∷ ts) s =
    let s' = (record_rate_limit_hit t s).1 in
    let counted : s'.consecutive_429s ≡ s.consecutive_429s + 1 = ground arith in
    let same : s'.config ≡ s.config = ground arith in
    let (later, kept) = hits-kept ts s' in (omega (arith, later, counted), kept ∙ same)

-- Where no refusal is on record, one that follows a run of n refusals makes the limiter wait from then
-- on for the base time doubled n times, and never for longer than the maximum; from the 1025th
-- refusal in a row on the method raises and leaves the waiting time as it was.
pub record_rate_limit_hit-backoff :
    (now : ℕ) (ts : List ℕ) (s : RateLimiter)
    → s.consecutive_429s ≡ 0
    → let before = hits ts s in
      let (r, after) = record_rate_limit_hit now before in
      (length ts < 1024
        × (r ≡ ok tt)
        × (after.backoff_until
            ≡ now + min_of (s.config.backoff_base * 2 ^ length ts) s.config.max_backoff))
      ⊎ (1024 ≤ length ts
          × (r ≡ err Error.float_overflow)
          × (after.backoff_until ≡ before.backoff_until))
unfolding record_rate_limit_hit
record_rate_limit_hit-backoff now ts s fresh =
    let before = hits ts s in
    let (counted, same) = hits-kept ts s in
    let exponent : before.consecutive_429s + 1 - 1 ≡ length ts = omega (arith, counted, fresh) in
    elim (Bool-cases (leb 1024 (before.consecutive_429s + 1 - 1))) [
      | inl many ↦ inr (ground (arith, exponent), ground arith, ground arith)
      | inr few ↦ inl (
        ground (arith, exponent),
        ground arith,
        ground arith
            ∙ ap (λ n. now + min_of (before.config.backoff_base * 2 ^ n) before.config.max_backoff)
                exponent
            ∙ ap (λ c. now + min_of (c.backoff_base * 2 ^ length ts) c.max_backoff) same,
      )
    ]
