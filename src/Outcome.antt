-- ===== src/Outcome.antt =====
-- Exceptions as values: what a method of the strategy raises, and the state-and-exception monad of
-- its methods. The state comes back after a raise too: what was written stays written.

use grid_bot_validation.Prelude.{
  Bool, true, false, if◌then◌else◌, ◌≡◌, refl, sym, ap, ◌∙◌, ◌⊎◌, inl, inr,
}

-- `ValueError` of a grid with duplicate prices, of an empty grid, of a position with no opposite
-- and of a bad configuration; `IndexError` of a list; `ZeroDivisionError`; and
-- `OverflowError`. Of the backtest, `ValueError` of a side, of the fill mode that has no check, of a
-- missing price or time, and of a tick out of order. Of the executor, an order link id too long. Of
-- the margin formulas, `ValueError` of a negative value and of a bad tier, and `InvalidOperation` of a
-- comparison with NaN. Of the auth cooldowns, `RuntimeError` of a thread that is not the main one, and
-- `KeyError`. Of the position of a backtest, `ValueError` of a direction, a commission rate and a fill.
pub data Error : Type 0 where
  duplicate_prices empty_grid index_out_of_range unlinked_position bad_config zero_division : Error
  float_overflow invalid_order_side event_follower_check missing_market missing_timestamp : Error
  non_monotonic_tick link_id_too_long negative_value bad_tier invalid_operation : Error
  not_main_thread missing_key invalid_direction invalid_commission invalid_fill : Error

pub data Result {ℓ} (A : Type ℓ) : Type ℓ where
  ok : A → Result A
  err : Error → Result A

abbrev pub Action : Type 0 → Type 0 → Type 0
Action S A = S → Result A × S

infixl 5 ◌>>=◌ ◌>>◌
abbrev pub ◌>>=◌ : {S A B : Type 0} → Action S A → (A → Action S B) → Action S B
◌>>=◌ m f s = let (r, s') = m s in elim r [ ok a ↦ f a s' | err e ↦ (err e, s') ]

abbrev pub ◌>>◌ : {S A B : Type 0} → Action S A → Action S B → Action S B
m >> k = m >>= λ _. k

module _ {S : Type 0} where
  abbrev pub pure : {A : Type 0} → A → Action S A
  pure a s = (ok a, s)

  abbrev pub raise : {A : Type 0} → Error → Action S A
  raise e s = (err e, s)

  abbrev pub modify : (S → S) → Action S (Unit {0})
  modify f s = (ok tt, f s)

-- What follows a result that is no raise.
abbrev pub and_then : {A B : Type 0} → Result A → (A → Result B) → Result B
and_then (ok a) f = f a
and_then (err e) f = err e

-- To split on a computed outcome and keep the equation.
pub Result-cases {ℓ} :
    {A : Type ℓ} (r : Result A) → ((e : Error) × (r ≡ err e)) ⊎ ((a : A) × (r ≡ ok a))
Result-cases (ok a) = inr (a, refl)
Result-cases (err e) = inl (e, refl)

-- What follows an action that has returned.
pub bind_ok :
    {S A B : Type 0} (m : Action S A) (f : A → Action S B) (s : S) {a : A}
    → (m s).0 ≡ ok a
    → (m >>= f) s ≡ f a (m s).1
bind_ok m f s h = rw (h, ◌>>=◌) refl

pub bind_err :
    {S A B : Type 0} (m : Action S A) (f : A → Action S B) (s : S) {e : Error}
    → (m s).0 ≡ err e
    → (m >>= f) s ≡ (err e, (m s).1)
bind_err m f s h = rw (h, ◌>>=◌) refl

pub err-not-ok : {B : Type 0} {e : Error} {b : B} → err e ≡ ok b → ⊥
err-not-ok h = cc h

pub ok_injective : {A : Type 0} {a b : A} → ok a ≡ ok b → a ≡ b
ok_injective h = cc h

-- A test that has let its value through.
pub guarded :
    {A : Type 0} (bad : Bool) (e : Error) {a b : A}
    → (if bad then err e else ok a) ≡ ok b
    → (bad ≡ false) × (a ≡ b)
guarded true e h = absurd (err-not-ok h)
guarded false e h = (refl, ok_injective h)

pub and_then_inversion :
    {A B : Type 0} (r : Result A) (f : A → Result B) {b : B}
    → and_then r f ≡ ok b
    → (a : A) × (r ≡ ok a) × (f a ≡ ok b)
and_then_inversion (ok a) f h = (a, refl, h)
and_then_inversion (err e) f h = absurd (err-not-ok h)

-- An action in two parts that has returned: its first part has.
pub bind_inversion :
    {S A B : Type 0} (m : Action S A) (f : A → Action S B) (s : S) {b : B}
    → ((m >>= f) s).0 ≡ ok b
    → (a : A) × ((m s).0 ≡ ok a) × ((m >>= f) s ≡ f a (m s).1)
bind_inversion m f s h = elim (Result-cases (m s).0) [
  | inl (e, failed) ↦ absurd (err-not-ok (sym (ap (λ x. x.0) (bind_err m f s failed)) ∙ h))
  | inr (a, done) ↦ (a, done, bind_ok m f s done)
]
