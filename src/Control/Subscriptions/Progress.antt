-- ===== src/Control/Subscriptions/Progress.antt =====
-- One step of a subscription towards its desired state, on every branch
-- (internal/control/reconcile.go).
use postie.Prelude.{
  none, ℕ, String, ◌≡◌, ◌≢◌, refl, inl, inr, Option, some, List, arith, Bool-cases,
}
use postie.Control.{Subscription, DesiredSubscription, Destination}
use postie.Control.Outside.{Outside, State}
use postie.Control.Subscriptions.{
  modify_in, set_desired_state, find_destination, destination_ready, ensure_consumer, move,
  move_known, reconcile_subscription,
}
use postie.Control.Subscriptions.Invariant.{
  entry, entry-modify_in, rested, rest-entry, ensure-Ensured, progress-IsActive,
}
use postie.Control.Subscriptions.Readiness.{AreSources, find_destination-AreSources}
use postie.Control.Subscriptions.Reached.{must_rest, IsMoved, IsReached, moved-IsReached}
use postie.Control.Subscriptions.Frame.{reconcile_subscription-frame}

module _ {W : Type 0} (o : Outside W) where
  move-IsMoved :
      (destinations : List Destination) (desired : DesiredSubscription) (consumer : Option ℕ)
      (st : State W) (x : Subscription)
      → entry desired.id st ≡ some x
      → x.consumer ≡ consumer
      → (x' : Subscription) × (entry desired.id (move o destinations desired consumer st) ≡ some x')
        × IsMoved desired
            (destination_ready (find_destination destinations desired.id) st.0.source_states)
            x
            x'
  unfolding move
  move-IsMoved destinations desired consumer st x h e =
      let d = find_destination destinations desired.id in
      let readiness = destination_ready d st.0.source_states in
      elim (Bool-cases (must_rest desired readiness)) [
        | inl still ↦ rw still (
          rested desired readiness.1 x,
          rest-entry o desired.id desired readiness.1 consumer st x h e,
          record { resting = λ _. refl; consuming = λ k. absurd (ground arith) },
        )
        | inr active ↦
            let (x', h', a) =
              progress-IsActive o desired.id desired x.revision
                (ensure_consumer o desired.id consumer d st)
                (ensure-Ensured o desired.id consumer d st x h e) in
            rw active (x', h', record { resting = λ k. absurd (ground arith); consuming = λ _. a })
      ]

  -- One step for a subscription that there is, by the code's own tests.
  pub reconcile_subscription-IsMoved :
      (destinations : List Destination) (desired : DesiredSubscription) (st : State W)
      (x : Subscription)
      → entry desired.id st ≡ some x
      → (x' : Subscription) × (entry desired.id (reconcile_subscription o destinations desired st)
          ≡ some x')
        × IsMoved desired
            (destination_ready (find_destination destinations desired.id) st.0.source_states)
            (set_desired_state desired.desired x)
            x'
        × ((j : String)
            → desired.id ≢ j
            → entry j (reconcile_subscription o destinations desired st) ≡ entry j st)
  unfolding reconcile_subscription modify_in move_known
  reconcile_subscription-IsMoved destinations desired (s, w) x h =
      let f = set_desired_state desired.desired in
      let (x', e, r) =
        move-IsMoved destinations desired x.consumer (modify_in desired.id f s, w) (f x)
          (entry-modify_in o desired.id f s h) refl in
      (x', rw h e, r, λ j ne. reconcile_subscription-frame o destinations desired j ne (s, w))

  -- One step for a subscription that there is, from `x`. Where the operator paused it, it ends
  -- paused with no error, with no consumer, and with the desired state noted and the revision
  -- applied. Otherwise, where a source of its destination is not running, it ends so too, but blocked
  -- and with the first such source named. Otherwise it is blocked for want of a consumer, its
  -- revision as before, or has a consumer and is starting, its revision as before, or running, the
  -- revision applied. No other subscription changes.
  pub reconcile_subscription-IsReached :
      (destinations : List Destination) (desired : DesiredSubscription) (st : State W)
      (x : Subscription)
      → entry desired.id st ≡ some x
      → (x' : Subscription) × (entry desired.id (reconcile_subscription o destinations desired st)
          ≡ some x')
        × ((ids : List String) × AreSources destinations desired.id ids
            × IsReached desired ids st.0.source_states x x')
        × ((j : String)
            → desired.id ≢ j
            → entry j (reconcile_subscription o destinations desired st) ≡ entry j st)
  reconcile_subscription-IsReached destinations desired (s, w) x h =
      let d = find_destination destinations desired.id in
      let (x', e, m, frame) = reconcile_subscription-IsMoved destinations desired (s, w) x h in
      (
        x',
        e,
        (
          d.sources,
          find_destination-AreSources destinations desired.id,
          moved-IsReached desired d s.source_states x x' m,
        ),
        frame,
      )

  -- An id that this configuration does not know changes nothing.
  pub reconcile_subscription_unknown :
      (destinations : List Destination) (desired : DesiredSubscription) (st : State W)
      → entry desired.id st ≡ none
      → reconcile_subscription o destinations desired st ≡ st
  unfolding reconcile_subscription move_known
  reconcile_subscription_unknown destinations desired st h = rw h
