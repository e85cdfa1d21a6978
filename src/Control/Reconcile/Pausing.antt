-- ===== src/Control/Reconcile/Pausing.antt =====
-- A pause under the walk over the desired states (internal/control/reconcile.go).
use mathlib.Core.List.{Memᴰ}
use mathlib.Core.Path.{subst}
use postie.Prelude.{
  String, true, ◌≡◌, ◌≢◌, ◌∙◌, refl, sym, none, some, List, [], ◌∷◌, ◌||◌, not, All,
}
use postie.Control.{
  paused, Subscription, DesiredSubscription, is_paused, Destination, resting_state,
}
use postie.Control.Outside.{Outside, State}
use postie.Control.Subscriptions.{
  reconcile_subscription, set_desired_state, find_destination, destination_ready,
}
use postie.Control.Subscriptions.Invariant.{entry, rested}
use postie.Control.Subscriptions.Frame.{reconcile_subscription-frame}
use postie.Control.Subscriptions.Progress.{reconcile_subscription-IsMoved}
use postie.Control.Reconcile.{reconcile_all}

-- The rows of the store have distinct ids.
abbrev pub Distinct : List DesiredSubscription → Type 0
Distinct [] = Unit
Distinct (d ∷ ds) = All (λ e. e.id ≢ d.id) ds × Distinct ds

-- The subscription as a pause leaves it.
pub record IsPaused (desired : DesiredSubscription) (x : Subscription) : Type 0 where
  pub state : x.view.state ≡ paused
  pub no_error : x.view.error ≡ ""
  pub no_consumer : x.consumer ≡ none
  pub applied : x.revision ≡ desired.revision

rested-IsPaused :
    (desired : DesiredSubscription) (reason : String) (x : Subscription)
    → is_paused desired ≡ true
    → IsPaused desired (rested desired reason x)
unfolding resting_state
rested-IsPaused desired reason x h = record {
  state = rw h;
  no_error = rw h;
  no_consumer = refl;
  applied = refl;
}

All-member :
    (ds : List DesiredSubscription) (d : DesiredSubscription) {id : String}
    → All (λ e. e.id ≢ id) ds
    → Memᴰ d ds
    → d.id ≢ id
All-member [] d h m = elim m [ ]
All-member (c ∷ ds) d h (Memᴰ.head same) = rw same h.0
All-member (c ∷ ds) d h (Memᴰ.tail m) = All-member ds d h.1 m

module _ {W : Type 0} (o : Outside W) (destinations : List Destination) where
  reconcile_all-frame :
      (ds : List DesiredSubscription) (id : String) (st : State W)
      → All (λ e. e.id ≢ id) ds
      → entry id (reconcile_all o destinations ds st) ≡ entry id st
  unfolding reconcile_all
  reconcile_all-frame [] id st h = refl
  reconcile_all-frame (d ∷ ds) id st h =
      reconcile_all-frame ds id (reconcile_subscription o destinations d st) h.1
      ∙ reconcile_subscription-frame o destinations d id h.0 st

  step-IsPaused :
      (d : DesiredSubscription) (st : State W) (x : Subscription)
      → is_paused d ≡ true
      → entry d.id st ≡ some x
      → (x' : Subscription) × (entry d.id (reconcile_subscription o destinations d st) ≡ some x')
        × IsPaused d x'
  step-IsPaused d st x h e =
      let (x', e', r, frame) = reconcile_subscription-IsMoved o destinations d st x e in
      let readiness = destination_ready (find_destination destinations d.id) st.0.source_states in
      let at_rest : (is_paused d || not readiness.0) ≡ true = rw h in
      (
        x',
        e',
        subst (IsPaused d) (sym (r.resting at_rest))
            (rested-IsPaused d readiness.1 (set_desired_state d.desired x) h),
      )

  abbrev Paused : List DesiredSubscription → DesiredSubscription → State W → Type 0
  Paused ds d st =
      (x' : Subscription) × (entry d.id (reconcile_all o destinations ds st) ≡ some x')
      × IsPaused d x'

  first-IsPaused :
      (c : DesiredSubscription) (ds : List DesiredSubscription) (st : State W) (x : Subscription)
      → All (λ e. e.id ≢ c.id) ds
      → is_paused c ≡ true
      → entry c.id st ≡ some x
      → Paused (c ∷ ds) c st
  unfolding reconcile_all
  first-IsPaused c ds st x apart h e =
      let (x', e', p) = step-IsPaused c st x h e in
      (x', reconcile_all-frame ds c.id (reconcile_subscription o destinations c st) apart ∙ e', p)

  -- The rows have distinct ids, one of them asks for a pause, and its subscription is there: behind
  -- the walk over all the rows it is paused with no error and no consumer, and the row's revision is
  -- applied, whatever its sources, its consumer and the other rows.
  pub reconcile_all-IsPaused :
      (ds : List DesiredSubscription) (d : DesiredSubscription) (st : State W) (x : Subscription)
      → Distinct ds
      → Memᴰ d ds
      → is_paused d ≡ true
      → entry d.id st ≡ some x
      → (x' : Subscription) × (entry d.id (reconcile_all o destinations ds st) ≡ some x')
        × IsPaused d x'
  unfolding reconcile_all
  reconcile_all-IsPaused [] d st x distinct m h e = elim m [ ]
  reconcile_all-IsPaused (c ∷ ds) d st x (apart, distinct) (Memᴰ.head same) h e =
      subst (λ q. is_paused q ≡ true → entry q.id st ≡ some x → Paused (c ∷ ds) q st) (sym same)
        (first-IsPaused c ds st x apart) h e
  reconcile_all-IsPaused (c ∷ ds) d st x (apart, distinct) (Memᴰ.tail m) h e =
      let ne = All-member ds d apart m in
      reconcile_all-IsPaused ds d (reconcile_subscription o destinations c st) x distinct m h
        (reconcile_subscription-frame o destinations c d.id (λ p. ne (sym p)) st ∙ e)
