-- ===== src/Executor/Links.antt =====
-- The link ids of orders: apps/gridbot/src/gridbot/order_link_id.py, read back by
-- extract_client_order_prefix of packages/gridcore/src/gridcore/intents.py.
use grid_bot_validation.Prelude.{
  ℕ, ◌≤◌, ◌<◌, ltb, ◌==◌, ◌≡◌, ◌≢◌, refl, ap, inl, inr, false, some, [], ◌∷◌, ◌++◌, length,
  length-append, arith, Bool-cases,
}
use grid_bot_validation.Text.{
  Text, dash, before_dash, or_nothing, decimal, extract_client_order_prefix,
}
use grid_bot_validation.Text.Digits.{power_of_ten, length-decimal_bound}
use grid_bot_validation.Outcome.{ok}
use grid_bot_validation.Executor.{make_order_link_id, order_link_id_max}

-- No character is '-'.
unfoldable pub NoDash : Text → Type 0
NoDash [] = Unit {0}
NoDash (c ∷ cs) = (c ≢ dash) × NoDash cs

before_dash-append : (id rest : Text) → NoDash id → before_dash (id ++ dash ∷ rest) ≡ id
unfolding NoDash before_dash
before_dash-append [] rest h = refl
before_dash-append (c ∷ cs) rest (first, later) = elim (Bool-cases (c == dash)) [
  | inl same ↦ absurd (first (ground (arith, same)))
  | inr other ↦ rw other (ap (◌∷◌ c) (before_dash-append cs rest later))
]

-- A client order id of at most 16 characters, not empty and without '-', at a time of less than
-- 10,000,000,000,000 milliseconds: a link id is made, and its prefix is the client order id again.
pub make_order_link_id-prefix :
    (c : ℕ) (cs : Text) (now_ms : ℕ)
    → length (c ∷ cs) ≤ 16
    → NoDash (c ∷ cs)
    → now_ms < 10_000_000_000_000
    → (link : Text) × (make_order_link_id (c ∷ cs) now_ms ≡ ok link)
      × (extract_client_order_prefix (some link) ≡ some (c ∷ cs))
unfolding make_order_link_id extract_client_order_prefix power_of_ten
make_order_link_id-prefix c cs now_ms short no_dash early =
    let id = c ∷ cs in
    let link = id ++ dash ∷ decimal now_ms in
    let digits = length-decimal_bound 12 now_ms early in
    let fits : ltb order_link_id_max (length link) ≡ false =
      ground (arith, length-append id (dash ∷ decimal now_ms), digits) in
    (link, rw fits refl, ap or_nothing (before_dash-append id (decimal now_ms) no_dash))
