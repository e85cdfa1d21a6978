-- ===== src/Control/Subscriptions/Reached.antt =====
-- What one pass of internal/control/reconcile.go can make of a subscription, with the states of
-- internal/control/state.go.
use Prim.Native.String
use mathlib.Core.Path.{subst}
use postie.Prelude.{
  String, Bool, ◌||◌, sym, true, false, not, ◌≡◌, ◌≢◌, ◌↔◌, refl, ◌⊎◌, inl, inr, Option, none, some,
  List, Dict, All, arith, Bool-cases,
}
use postie.Control.{
  SubscriptionState, paused, blocked, SourceStatus, Subscription, DesiredSubscription, Destination,
  state_eq, is_paused, resting_state,
}
use postie.Control.Subscriptions.{set_desired_state, unready, destination_ready}
use postie.Control.Subscriptions.Invariant.{rested, IsActive}
use postie.Control.Subscriptions.Readiness.{IsOn, FirstOff, Found, unready-Found}

-- A subscription at rest, from `x`.
pub record IsResting (desired : DesiredSubscription) (s : SubscriptionState) (e : String)
    (x x' : Subscription) : Type 0 where
  pub state : x'.view.state ≡ s
  pub error : x'.view.error ≡ e
  pub no_consumer : x'.consumer ≡ none
  pub applied : x'.revision ≡ desired.revision
  pub wanted : x'.view.desired_state ≡ desired.desired
  pub same_id : x'.view.id ≡ x.view.id

pub record IsPausedAt (desired : DesiredSubscription) (x x' : Subscription) : Type 0 where
  pub asked : desired.desired ≡ paused
  pub resting : IsResting desired paused "" x x'

-- The first of the sources that is not running keeps the subscription.
pub record IsKept (desired : DesiredSubscription) (ids : List String) (states : Dict SourceStatus)
    (x x' : Subscription) : Type 0 where
  pub asked : desired.desired ≢ paused
  pub off : String
  pub first : FirstOff ids states off
  pub resting : IsResting desired blocked (String.◌++◌ "source unavailable: " off) x x'

-- Every source is running, and the operator wants the records.
pub record IsServed (desired : DesiredSubscription) (ids : List String) (states : Dict SourceStatus)
    (x x' : Subscription) : Type 0 where
  pub asked : desired.desired ≢ paused
  pub ready : All (IsOn states) ids
  pub active : IsActive desired x.revision x'

abbrev pub IsReached :
    DesiredSubscription → List String → Dict SourceStatus → Subscription → Subscription → Type 0
IsReached desired ids states x x' =
    IsPausedAt desired x x' ⊎ IsKept desired ids states x x' ⊎ IsServed desired ids states x x'

-- What one pass reaches, by the code's own tests.
abbrev pub must_rest : DesiredSubscription → Bool × String → Bool
must_rest desired readiness = is_paused desired || not readiness.0

pub record IsMoved (desired : DesiredSubscription) (readiness : Bool × String) (x x' : Subscription)
    : Type 0 where
  pub resting : must_rest desired readiness ≡ true → x' ≡ rested desired readiness.1 x
  pub consuming : must_rest desired readiness ≡ false → IsActive desired x.revision x'

state_eq-paused : (s : SubscriptionState) → (state_eq s paused ≡ true) ↔ (s ≡ paused)
unfolding state_eq
state_eq-paused paused = (λ h. refl, λ h. refl)
state_eq-paused _ = (λ h. cc, λ h. cc)

is_paused-eq : (d : DesiredSubscription) → (is_paused d ≡ true) ↔ (d.desired ≡ paused)
unfolding is_paused
is_paused-eq d = state_eq-paused d.desired

is_paused-ne : (d : DesiredSubscription) → is_paused d ≡ false → d.desired ≢ paused
is_paused-ne d h e = absurd (ground (arith, (is_paused-eq d).1 e))

rested-paused :
    (desired : DesiredSubscription) (reason : String) (x x' : Subscription)
    → is_paused desired ≡ true
    → x' ≡ rested desired reason (set_desired_state desired.desired x)
    → IsResting desired paused "" x x'
unfolding resting_state
rested-paused desired reason x x' p e = subst (IsResting desired paused "" x) (sym e) (record {
  state = ground arith;
  error = ground arith;
  no_consumer = refl;
  applied = refl;
  wanted = refl;
  same_id = refl;
})

rested-blocked :
    (desired : DesiredSubscription) (reason : String) (x x' : Subscription)
    → is_paused desired ≡ false
    → x' ≡ rested desired reason (set_desired_state desired.desired x)
    → IsResting desired blocked reason x x'
unfolding resting_state
rested-blocked desired reason x x' p e =
    subst (IsResting desired blocked reason x) (sym e) (record {
      state = ground arith;
      error = ground arith;
      no_consumer = refl;
      applied = refl;
      wanted = refl;
      same_id = refl;
    })

abbrev readiness_of : Option String → Bool × String
readiness_of none = (true, "")
readiness_of (some reason) = (false, reason)

outcome-IsReached :
    (desired : DesiredSubscription) (ids : List String) (states : Dict SourceStatus)
    (x x' : Subscription) (found : Option String)
    → Found ids states found
    → IsMoved desired (readiness_of found) (set_desired_state desired.desired x) x'
    → IsReached desired ids states x x'
outcome-IsReached desired ids states x x' found f m = elim (Bool-cases (is_paused desired)) [
  | inl still ↦ inl (record {
    asked = (is_paused-eq desired).0 still;
    resting = rested-paused desired (readiness_of found).1 x x' still (m.resting (ground arith));
  })
  | inr on ↦ inr (wanted found f m on)
]
  where
    wanted :
        (found : Option String)
        → Found ids states found
        → IsMoved desired (readiness_of found) (set_desired_state desired.desired x) x'
        → is_paused desired ≡ false
        → IsKept desired ids states x x' ⊎ IsServed desired ids states x x'
    wanted none f m on =
        inr (record {
          asked = is_paused-ne desired on;
          ready = f;
          active = m.consuming (ground arith);
        })
    wanted (some reason) (off, first, e) m on = inl (record {
      asked = is_paused-ne desired on;
      off = off;
      first = first;
      resting =
          subst (λ r. IsResting desired blocked r x x') e
            (rested-blocked desired reason x x' on (m.resting (ground arith)));
    })

pub moved-IsReached :
    (desired : DesiredSubscription) (d : Destination) (states : Dict SourceStatus)
    (x x' : Subscription)
    → IsMoved desired (destination_ready d states) (set_desired_state desired.desired x) x'
    → IsReached desired d.sources states x x'
unfolding destination_ready
moved-IsReached desired d states x x' m =
    outcome-IsReached desired d.sources states x x' (unready d.sources states)
      (unready-Found d.sources states) m
