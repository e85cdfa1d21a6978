-- ===== src/Control/Subscriptions/Frame.antt =====
-- The other subscriptions under one step (internal/control/reconcile.go).
use postie.Prelude.{
  ℕ, String, Bool, true, false, not, ◌||◌, ◌≡◌, ◌≢◌, ◌∙◌, refl, ap, inl, inr, Option, none, some,
  List, lookup, Bool-cases,
}
use postie.Control.{
  running, starting, pausing, blocked, Subscription, DesiredSubscription, is_paused, Destination,
  resting_state,
}
use postie.Control.Outside.{Outside, State}
use postie.Control.Subscriptions.{
  modify_in, set_desired_state, set_state, set_outcome, set_consumer, set_revision,
  find_destination, destination_ready, stop_consumer, settle, rest, started, start_consumer,
  ensure_consumer, mark_progress, progress, move, move_known, reconcile_subscription,
}
use postie.Control.Subscriptions.Invariant.{
  entry, entry-modify_in_ne, subscriptions-log_resting, subscriptions-log_running,
}

module _ {W : Type 0} (o : Outside W) where
  settle-frame :
      (id j : String) (desired : DesiredSubscription) (reason : String) (st : State W)
      → id ≢ j
      → entry j (settle o id desired reason st) ≡ entry j st
  unfolding settle
  settle-frame id j desired reason (s, w) ne =
      let outcome = resting_state desired reason in
      let f =
        λ (y : Subscription). set_revision desired.revision (set_outcome outcome.0 outcome.1 y) in
      ap (lookup j)
        (subscriptions-log_resting o id (lookup id s.subscriptions) outcome (modify_in id f s, w))
      ∙ entry-modify_in_ne o id j f s ne

  stop-frame :
      (id j : String) (consumer : Option ℕ) (st : State W)
      → id ≢ j
      → entry j (stop_consumer o id consumer st) ≡ entry j st
  unfolding stop_consumer
  stop-frame id j none st ne = refl
  stop-frame id j (some c) (s, w) ne =
      entry-modify_in_ne o id j (set_consumer none) (modify_in id (set_state pausing) s) ne
      ∙ entry-modify_in_ne o id j (set_state pausing) s ne

  rest-frame :
      (id j : String) (consumer : Option ℕ) (desired : DesiredSubscription) (reason : String)
      (st : State W)
      → id ≢ j
      → entry j (rest o id consumer desired reason st) ≡ entry j st
  unfolding rest
  rest-frame id j consumer desired reason st ne =
      settle-frame id j desired reason (stop_consumer o id consumer st) ne
      ∙ stop-frame id j consumer st ne

  started-frame :
      (id j : String) (answer : Option ℕ) (st : State W)
      → id ≢ j
      → entry j (started o id answer st).0 ≡ entry j st
  unfolding started
  started-frame id j none (s, w) ne =
      entry-modify_in_ne o id j (set_outcome blocked "Kafka consumer unavailable") s ne
  started-frame id j (some c) (s, w) ne =
      entry-modify_in_ne o id j (λ x. set_outcome starting "" (set_consumer (some c) x)) s ne

  ensure-frame :
      (id j : String) (consumer : Option ℕ) (d : Destination) (st : State W)
      → id ≢ j
      → entry j (ensure_consumer o id consumer d st).0 ≡ entry j st
  unfolding ensure_consumer start_consumer
  ensure-frame id j none d (s, w) ne = started-frame id j _ (s, _) ne
  ensure-frame id j (some c) d (s, w) ne = elim (Bool-cases (o.finished c w)) [
    | inl over ↦ rw over (
        started-frame id j _ (modify_in id (set_consumer none) s, _) ne
        ∙ entry-modify_in_ne o id j (set_consumer none) s ne)
    | inr live ↦ rw live
  ]

  mark-frame :
      (id j : String) (desired : DesiredSubscription) (is_ready : Bool) (st : State W)
      → id ≢ j
      → entry j (mark_progress o id desired is_ready st) ≡ entry j st
  unfolding mark_progress
  mark-frame id j desired false (s, w) ne = entry-modify_in_ne o id j (set_state starting) s ne
  mark-frame id j desired true (s, w) ne =
      let f = λ (y : Subscription). set_revision desired.revision (set_outcome running "" y) in
      ap (lookup j)
        (subscriptions-log_running o id (lookup id s.subscriptions) (modify_in id f s, w))
      ∙ entry-modify_in_ne o id j f s ne

  progress-frame :
      (id j : String) (desired : DesiredSubscription) (r : State W × Option ℕ)
      → id ≢ j
      → entry j (progress o id desired r) ≡ entry j r.0
  unfolding progress
  progress-frame id j desired (st, none) ne = refl
  progress-frame id j desired (st, some c) ne = mark-frame id j desired (o.ready c st.1) st ne

  move-frame :
      (destinations : List Destination) (desired : DesiredSubscription) (consumer : Option ℕ)
      (j : String) (st : State W)
      → desired.id ≢ j
      → entry j (move o destinations desired consumer st) ≡ entry j st
  unfolding move
  move-frame destinations desired consumer j st ne =
      let d = find_destination destinations desired.id in
      let readiness = destination_ready d st.0.source_states in
      elim (Bool-cases (is_paused desired || not readiness.0)) [
        | inl still ↦ rw still (rest-frame desired.id j consumer desired readiness.1 st ne)
        | inr active ↦ rw active (
            progress-frame desired.id j desired (ensure_consumer o desired.id consumer d st) ne
            ∙ ensure-frame desired.id j consumer d st ne)
      ]

  known-frame :
      (destinations : List Destination) (desired : DesiredSubscription)
      (found : Option Subscription) (j : String) (st : State W)
      → desired.id ≢ j
      → entry j (move_known o destinations desired found st) ≡ entry j st
  unfolding move_known
  known-frame destinations desired none j st ne = refl
  known-frame destinations desired (some x) j (s, w) ne =
      move-frame destinations desired x.consumer j
        (modify_in desired.id (set_desired_state desired.desired) s, w) ne
      ∙ entry-modify_in_ne o desired.id j (set_desired_state desired.desired) s ne

  pub reconcile_subscription-frame :
      (destinations : List Destination) (desired : DesiredSubscription) (j : String)
      → desired.id ≢ j
      → (st : State W) → entry j (reconcile_subscription o destinations desired st) ≡ entry j st
  unfolding reconcile_subscription
  reconcile_subscription-frame destinations desired j ne st =
      known-frame destinations desired (lookup desired.id st.0.subscriptions) j st ne
