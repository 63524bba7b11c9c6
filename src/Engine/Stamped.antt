-- ===== src/Engine/Stamped.antt =====
-- What the callback `on_change` is told while an event is handled: the stamping that
-- `_handle_ticker_event` and `_handle_execution_event` of packages/gridcore/src/gridcore/engine.py do.
pub mod GridSteps
pub mod Events
use grid_bot_validation.Prelude.{
  ℕ, ◌+◌, ◌≡◌, refl, sym, ap, subst, ◌∙◌, inl, inr, Bool, true, false, Option, none, some, List, [],
  ◌∷◌, ◌++◌, append_assoc, arith, Bool-cases, Option-cases, length, ◌==◌, ltb, not, ◌&&◌,
}
use grid_bot_validation.Float.{Floats, int}
use grid_bot_validation.Outcome.{
  Result, ok, err, Error, Action, ◌>>=◌, ◌>>◌, pure, modify, Result-cases,
}
use grid_bot_validation.Grid.Level.{Level, Change, Grid, notify_change, prices}
use grid_bot_validation.Grid.Build.{
  build_grid, rebuild_grid, has_duplicates, built_levels, round_price,
}
use grid_bot_validation.Grid.Check.{bounds}
use grid_bot_validation.Grid.Update.{
  update_grid, apply_fill, rebuild_outside, is_outside, assign_sides, center_grid, shift_up,
  shift_down,
}
use grid_bot_validation.Engine.Place.{cancel_all_limits}
use grid_bot_validation.Engine.Types.{
  Direction, CancelReason, Limit, LimitOrders, Intent, Event, Engine,
}
use grid_bot_validation.Engine.Handle.{
  on_grid, set_exchange_ts, ensure_grid, consume_fill, check_and_place, ticker_body, execution_body,
  handle_ticker_event, handle_execution_event, on_event, in_range, build_price, may_consume,
  rebuild_at, or_none,
}

module _ {F : Type 0} where
  abbrev pub AllStamped : Option ℕ → List (Change F) → Type 0
  AllStamped ts [] = Unit {0}
  AllStamped ts (c ∷ cs) = (c.exchange_ts ≡ ts) × AllStamped ts cs

  pub AllStamped-append :
      (ts : Option ℕ) (xs ys : List (Change F))
      → AllStamped ts xs
      → AllStamped ts ys
      → AllStamped ts (xs ++ ys)
  AllStamped-append ts [] ys a b = b
  AllStamped-append ts (x ∷ xs) ys a b = (a.0, AllStamped-append ts xs ys a.1 b)

  -- Of two logs of the calls: none is made up without a callback, none is lost, and the new ones all
  -- have the time stamp.
  pub record Told (ts : Option ℕ) (before after : Option (List (Change F))) : Type 0 where
    pub silent : before ≡ none → after ≡ none
    pub grown :
        (old : List (Change F))
        → before ≡ some old
        → (new : List (Change F)) × (after ≡ some (new ++ old)) × AllStamped ts new

  pub Told-refl : (ts : Option ℕ) {a b : Option (List (Change F))} → b ≡ a → Told ts a b
  Told-refl ts same = record { silent = λ h. same ∙ h; grown = λ old h. ([], same ∙ h, tt) }

  Told-trans :
      (ts : Option ℕ) {a b c : Option (List (Change F))} → Told ts a b → Told ts b c → Told ts a c
  Told-trans ts r s = record {
    silent = λ h. s.silent (r.silent h);
    grown = λ old h.
        let (first, at_first, stamped) = r.grown old h in
        let (second, at_second, stamped') = s.grown (first ++ old) at_first in
        (
          second ++ first,
          at_second ∙ ap some (sym (append_assoc second first old)),
          AllStamped-append ts second first stamped' stamped,
        );
  }

  -- The grid keeps the time stamp of the event in hand, and tells the callback of it.
  pub record IsStamping (g g' : Grid F) : Type 0 where
    pub keeps : g'.current_exchange_ts ≡ g.current_exchange_ts
    pub tells : Told g.current_exchange_ts g.changes g'.changes

  pub still :
      (g g' : Grid F)
      → g'.current_exchange_ts ≡ g.current_exchange_ts
      → g'.changes ≡ g.changes
      → IsStamping g g'
  still g g' ts log = record { keeps = ts; tells = Told-refl g.current_exchange_ts log }

  pub next : (g g' g'' : Grid F) → IsStamping g g' → IsStamping g' g'' → IsStamping g g''
  next g g' g'' r s = record {
    keeps = s.keeps ∙ r.keeps;
    tells =
        Told-trans g.current_exchange_ts r.tells
          (subst (λ ts. Told ts g'.changes g''.changes) r.keeps s.tells);
  }

  pub notify_change-IsStamping : (g : Grid F) → IsStamping g (notify_change g)
  unfolding notify_change
  notify_change-IsStamping g = record {
    keeps = ground arith;
    tells = record {
      silent = λ h. ground arith;
      grown = λ old h. (
        record { grid = g.levels; exchange_ts = g.current_exchange_ts } ∷ [],
        ground arith,
        (refl, tt),
      );
    };
  }

  module _ {S : Type 0} (view : S → Grid F) where
    abbrev pub AllStamping : {A : Type 0} → Action S A → Type 0
    AllStamping m = (s : S) → IsStamping (view s) (view (m s).1)

    pub bind-AllStamping :
        {A B : Type 0} (m : Action S A) (f : A → Action S B)
        → AllStamping m
        → ((a : A) → AllStamping (f a))
        → AllStamping (m >>= f)
    bind-AllStamping m f p q s = elim (Result-cases (m s).0) [
      | inl (x, failed) ↦ rw (failed, ◌>>=◌) (p s)
      | inr (a, done) ↦
          rw (done, ◌>>=◌) (next (view s) (view (m s).1) (view (f a (m s).1).1) (p s) (q a (m s).1))
    ]
