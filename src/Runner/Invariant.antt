-- ===== src/Runner/Invariant.antt =====
-- What every cancel and every placement keeps, a batch keeps: `_execute_generated_intents` of
-- apps/gridbot/src/gridbot/runner.py.
use grid_bot_validation.Prelude.{
  sym, subst, inl, inr, Bool, true, false, List, [], ◌∷◌, if◌then◌else◌,
}
use grid_bot_validation.Outcome.{Action, ok, ◌>>◌, Result-cases, bind_ok, bind_err}
use grid_bot_validation.Decimal.{Decimals}
use grid_bot_validation.Executor.{PlaceLimitIntent, CancelIntent}
use grid_bot_validation.Runner.{GeneratedIntent, StrategyRunner, RunState, Outside}
use grid_bot_validation.Runner.Place.{execute_place_intent}
use grid_bot_validation.Runner.Keeps.{holds_one}
use grid_bot_validation.Runner.Batch.{
  execute_cancel_intent, execute_cancels, execute_places, execute_intents,
  execute_generated_intents, limits_of, limits_after, places_of, cancels_of, healing,
}

module _ {D W : Type 0} (P : StrategyRunner D → Type 0) where
  pub holds_either :
      {R : Type 0} (b : Bool) (u v : R × RunState D W)
      → P u.1.0
      → P v.1.0
      → P (if b then u else v).1.0
  holds_either true u v p q = p
  holds_either false u v p q = q

module _ {D W : Type 0} ⦃dec : Decimals D⦄ (P : StrategyRunner D → Type 0) (x : Outside D W)
    (cancel_keeps : (is_duplicate : Bool) (c : CancelIntent) (st : RunState D W)
      → P st.0
      → P (execute_cancel_intent x is_duplicate c st).0)
    (place_keeps : (i : PlaceLimitIntent D) (st : RunState D W)
      → P st.0
      → P (execute_place_intent x i (limits_of st) st).1.0) where
  execute_cancels_keeps :
      (cs : List (Bool × CancelIntent)) (st : RunState D W) → P st.0 → P (execute_cancels x cs st).0
  unfolding execute_cancels
  execute_cancels_keeps [] st d = d
  execute_cancels_keeps (c ∷ cs) st d =
      holds_one P st.0.executor.auth_cooldown st _ d
        (execute_cancels_keeps cs (execute_cancel_intent x c.0 c.1 st) (cancel_keeps c.0 c.1 st d))

  bind_keeps :
      (first next : Action (RunState D W) (Unit {0})) (st : RunState D W)
      → P (first st).1.0
      → P (next (first st).1).1.0
      → P ((first >> next) st).1.0
  bind_keeps first next st d d' = elim (Result-cases (first st).0) [
    | inl (e, raised) ↦ subst (λ r. P r.1.0) (sym (bind_err first (λ _. next) st raised)) d
    | inr (a, done) ↦ subst (λ r. P r.1.0) (sym (bind_ok first (λ _. next) st done)) d'
  ]

  execute_places_keeps :
      (ps : List (PlaceLimitIntent D)) (st : RunState D W)
      → P st.0
      → P (execute_places x ps (limits_of st) st).1.0
  unfolding execute_places
  execute_places_keeps [] st d = d
  execute_places_keeps (p ∷ ps) st d =
      let first = execute_place_intent x p (limits_of st) in
      let d' = place_keeps p st d in
      holds_either P st.0.executor.auth_cooldown (ok tt, st) _ d
        (bind_keeps first (λ st'. execute_places x ps (limits_of st') st') st d'
          (execute_places_keeps ps (first st).1 d'))

  limits_keeps :
      (cs : List (Bool × CancelIntent)) (ps : List (PlaceLimitIntent D)) (st : RunState D W)
      → P st.0
      → P
          (execute_places x ps
            (limits_after cs (limits_of st) (execute_cancels x cs st))
            (execute_cancels x cs st)).1.0
  unfolding execute_cancels
  limits_keeps [] ps st d = execute_places_keeps ps st d
  limits_keeps (c ∷ cs) ps st d =
      execute_places_keeps ps (execute_cancels x (c ∷ cs) st) (execute_cancels_keeps (c ∷ cs) st d)

  pub batch_keeps :
      (intents : List (GeneratedIntent D)) (st : RunState D W)
      → P st.0
      → P (execute_generated_intents x intents (limits_of st) st).1.0
  unfolding execute_generated_intents execute_intents
  batch_keeps intents st d =
      let chosen = if st.0.same_order_error then healing intents else intents in
      holds_either P st.0.executor.auth_cooldown (ok tt, st) _ d
        (limits_keeps (cancels_of chosen) (places_of chosen) st d)
