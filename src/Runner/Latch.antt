-- ===== src/Runner/Latch.antt =====
-- What a latched SAME ORDER error holds back: apps/gridbot/src/gridbot/runner.py.
use grid_bot_validation.Prelude.{
  ◌≡◌, refl, ap, ◌∙◌, Bool, true, false, Option, none, some, List, [], ◌∷◌, map, if◌then◌else◌,
}
use grid_bot_validation.Text.{Text}
use grid_bot_validation.Outcome.{ok}
use grid_bot_validation.Decimal.{Decimals}
use grid_bot_validation.Executor.{
  PlaceLimitIntent, CancelIntent, PlaceRequest, Answer, execute_cancel,
}
use grid_bot_validation.Runner.{
  TrackedOrder, GeneratedIntent, Limits, StrategyRunner, RunState, Outside,
}
use grid_bot_validation.Runner.Orders.{mark, mark_cancelled, find_tracked_order}
use grid_bot_validation.Runner.Keeps.{holds_one}
use grid_bot_validation.Runner.Batch.{
  healing, places_of, cancels_of, execute_cancel_intent, execute_cancels, execute_places,
  execute_intents, limits_after, execute_generated_intents, RetryOutcome, retry_dispatch_place,
  retry_unlatched, limits_of, drained,
}

module _ {D W : Type 0} where
  -- Another exchange, whose `place_order` is any other.
  abbrev pub with_placing :
      (PlaceRequest D → W → Answer (Option Text) × W) → Outside D W → Outside D W
  with_placing placing x = record x { exchange = record x.exchange { place_order = placing } }

abbrev pub as_duplicates : List CancelIntent → List (Bool × CancelIntent)
as_duplicates cs = map (λ c. (true, c)) cs

module _ {D : Type 0} where
  -- The cancels of duplicates among the intents, in their order
  abbrev pub duplicate_cancels : List (GeneratedIntent D) → List CancelIntent
  duplicate_cancels [] = []
  duplicate_cancels (GeneratedIntent.cancel true c ∷ is') = c ∷ duplicate_cancels is'
  duplicate_cancels (GeneratedIntent.cancel false c ∷ is') = duplicate_cancels is'
  duplicate_cancels (GeneratedIntent.place p ∷ is') = duplicate_cancels is'

  places_of-healing : (is' : List (GeneratedIntent D)) → places_of (healing is') ≡ []
  places_of-healing [] = refl
  places_of-healing (GeneratedIntent.cancel true c ∷ is') = places_of-healing is'
  places_of-healing (GeneratedIntent.cancel false c ∷ is') = places_of-healing is'
  places_of-healing (GeneratedIntent.place p ∷ is') = places_of-healing is'

  cancels_of-healing :
      (is' : List (GeneratedIntent D))
      → cancels_of (healing is') ≡ as_duplicates (duplicate_cancels is')
  cancels_of-healing [] = refl
  cancels_of-healing (GeneratedIntent.cancel true c ∷ is') =
      ap (λ cs. (true, c) ∷ cs) (cancels_of-healing is')
  cancels_of-healing (GeneratedIntent.cancel false c ∷ is') = cancels_of-healing is'
  cancels_of-healing (GeneratedIntent.place p ∷ is') = cancels_of-healing is'

either_pair :
    {R S : Type 0} (b : Bool) (r : R) (u v : S)
    → ◌≡◌ {A = R × S} (if b then (r, u) else (r, v)) (r, if b then u else v)
either_pair true r u v = refl
either_pair false r u v = refl

module _ {D W : Type 0} ⦃dec : Decimals D⦄ (x : Outside D W)
    (placing : PlaceRequest D → W → Answer (Option Text) × W) where
  execute_cancels-placing :
      (cs : List (Bool × CancelIntent)) (st : RunState D W)
      → execute_cancels (with_placing placing x) cs st ≡ execute_cancels x cs st
  unfolding execute_cancels execute_cancel_intent execute_cancel
  execute_cancels-placing [] st = refl
  execute_cancels-placing (c ∷ cs) st =
      ap (λ rest. if st.0.executor.auth_cooldown then st else rest)
        (execute_cancels-placing cs (execute_cancel_intent x c.0 c.1 st))

module _ {D W : Type 0} (x : Outside D W) where
  latch-drained :
      (is_duplicate : Bool) (found : Option (Text × TrackedOrder D)) (s : StrategyRunner D)
      → (drained is_duplicate found s).same_order_error ≡ s.same_order_error
  latch-drained true none s = refl
  latch-drained true (some (key, t)) s = refl
  latch-drained false found s = refl

  execute_cancel_intent-latch :
      (is_duplicate : Bool) (c : CancelIntent) (st : RunState D W)
      → st.0.same_order_error ≡ true
      → (execute_cancel_intent x is_duplicate c st).0.same_order_error ≡ true
  unfolding execute_cancel_intent
  execute_cancel_intent-latch is_duplicate c (s, w) latched =
      let answered = execute_cancel x.exchange c (s.executor, w) in
      let found = find_tracked_order none (some c.order_id) s.tracked_orders in
      holds_one (λ s'. s'.same_order_error ≡ true) answered.0.success _ _
        (latch-drained is_duplicate found (record s {
          executor = answered.1.0;
          tracked_orders = mark mark_cancelled found s.tracked_orders;
        })
          ∙ latched)
        latched

  -- Cancels do not lift the latch.
  execute_cancels-latch :
      (cs : List (Bool × CancelIntent)) (st : RunState D W)
      → st.0.same_order_error ≡ true
      → (execute_cancels x cs st).0.same_order_error ≡ true
  unfolding execute_cancels
  execute_cancels-latch [] st latched = latched
  execute_cancels-latch (c ∷ cs) st latched =
      holds_one (λ s'. s'.same_order_error ≡ true) st.0.executor.auth_cooldown st _ latched
        (execute_cancels-latch cs (execute_cancel_intent x c.0 c.1 st)
          (execute_cancel_intent-latch c.0 c.1 st latched))

module _ {D W : Type 0} ⦃dec : Decimals D⦄ where
  no_places :
      (x : Outside D W) (ps : List (PlaceLimitIntent D)) (limits : Limits D) (st : RunState D W)
      → ps ≡ []
      → execute_places x ps limits st ≡ (ok tt, st)
  unfolding execute_places
  no_places x ps limits st none_left = rw (none_left, execute_places) refl

  -- A batch of cancels
  cancels_only :
      (x : Outside D W) (intents : List (GeneratedIntent D)) (limits : Limits D) (st : RunState D W)
      → execute_intents x (healing intents) limits st ≡ (
        ok tt,
        if st.0.executor.auth_cooldown
            then st
            else execute_cancels x (cancels_of (healing intents)) st,
      )
  unfolding execute_intents
  cancels_only x intents limits st =
      let cs = cancels_of (healing intents) in
      let st' = execute_cancels x cs st in
      ap (λ r. if st.0.executor.auth_cooldown then (ok tt, st) else r)
        (no_places x (places_of (healing intents)) (limits_after cs limits st') st'
          (places_of-healing intents))
      ∙ either_pair st.0.executor.auth_cooldown (ok tt) st st'

-- What the runner is asked to do: a batch of the engine's intents, or a placement of the retry queue.
pub data Demand (D : Type 0) : Type 0 where
  batch : List (GeneratedIntent D) → Demand D
  retry : PlaceLimitIntent D → Demand D

module _ {D W : Type 0} ⦃dec : Decimals D⦄ (x : Outside D W) where
  -- The state after a series of them.
  unfoldable pub run : List (Demand D) → RunState D W → RunState D W
  run [] st = st
  run (Demand.batch intents ∷ ds) st =
      run ds (execute_generated_intents x intents (limits_of st) st).1
  run (Demand.retry i ∷ ds) st = run ds (retry_dispatch_place x i st).1

  -- The state after their cancels of duplicates alone, none of them in an auth cooldown.
  unfoldable pub heal : List (Demand D) → RunState D W → RunState D W
  heal [] st = st
  heal (Demand.batch intents ∷ ds) st = heal ds (
      if st.0.executor.auth_cooldown
      then st
      else execute_cancels x (as_duplicates (duplicate_cancels intents)) st)
  heal (Demand.retry i ∷ ds) st = heal ds st

module _ {D W : Type 0} ⦃dec : Decimals D⦄ (x : Outside D W)
    (placing : PlaceRequest D → W → Answer (Option Text) × W) where
  batch-healing :
      (intents : List (GeneratedIntent D)) (limits : Limits D) (st : RunState D W)
      → st.0.same_order_error ≡ true
      → (execute_generated_intents (with_placing placing x) intents limits st).1 ≡ (
          if st.0.executor.auth_cooldown
          then st
          else execute_cancels x (as_duplicates (duplicate_cancels intents)) st)
  unfolding execute_generated_intents
  batch-healing intents limits st latched =
      let y = with_placing placing x in
      let chosen = λ (b : Bool). if b then healing intents else intents in
      ap (λ b. (execute_intents y (chosen b) limits st).1) latched
      ∙ ap (λ r. r.1) (cancels_only y intents limits st)
      ∙ ap (λ st'. if st.0.executor.auth_cooldown then st else st')
          (execute_cancels-placing x placing (cancels_of (healing intents)) st
            ∙ ap (λ cs. execute_cancels x cs st) (cancels_of-healing intents))

  retry-blocked :
      (i : PlaceLimitIntent D) (st : RunState D W)
      → st.0.same_order_error ≡ true
      → (retry_dispatch_place (with_placing placing x) i st).1 ≡ st
  unfolding retry_dispatch_place
  retry-blocked i st latched =
      ap
        (λ b.
          (if b
            then (ok RetryOutcome.same_order_blocked, st)
            else retry_unlatched (with_placing placing x) i st).1)
        latched

  -- While the SAME ORDER error is latched, any series of batches of the engine's intents and of retries
  -- has the effect of the cancels of duplicates among them, in their order and outside an auth cooldown,
  -- and no other, whatever `place_order` would answer: nothing is placed, and the latch stays.
  pub latched-placing :
      (ds : List (Demand D)) (st : RunState D W)
      → st.0.same_order_error ≡ true
      → (run (with_placing placing x) ds st ≡ heal x ds st)
        × ((heal x ds st).0.same_order_error ≡ true)
  unfolding run heal
  latched-placing [] st latched = (refl, latched)
  latched-placing (Demand.batch intents ∷ ds) st latched =
      let cs = as_duplicates (duplicate_cancels intents) in
      let st' : RunState D W =
        if st.0.executor.auth_cooldown then st else execute_cancels x cs st in
      let still : st'.0.same_order_error ≡ true =
        holds_one (λ s'. s'.same_order_error ≡ true) st.0.executor.auth_cooldown st _ latched
          (execute_cancels-latch x cs st latched) in
      let rest = latched-placing ds st' still in
      (
        ap (run (with_placing placing x) ds) (batch-healing intents (limits_of st) st latched)
            ∙ rest.0,
        rest.1,
      )
  latched-placing (Demand.retry i ∷ ds) st latched =
      let rest = latched-placing ds st latched in
      (ap (run (with_placing placing x) ds) (retry-blocked i st latched) ∙ rest.0, rest.1)
