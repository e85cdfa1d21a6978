-- ===== src/Control/Reconcile/Ways.antt =====
-- The ways of a pass of the control loop (internal/control/reconcile.go).
use postie.Prelude.{
  ℕ, ◌+◌, String, Bool, true, false, ◌≡◌, ◌⊎◌, Option, none, some, List, [], ◌∷◌, Dict,
}
use postie.Stream.{Source}
use postie.Control.{Subscription, DesiredSubscription, Destination, degraded}
use postie.Control.Outside.{Outside, State}
use postie.Control.Sources.{allowed}
use postie.Control.Reconcile.{lease_ttl, observations, inspect_all, reconcile_all}
use postie.Control.Reconcile.Stops.{AreFree, AreStopped}
use postie.Control.Reconcile.Status.{HasStatus}

-- No consumer of these subscriptions is left: each was cancelled and has ended behind the world
-- `w`. The engine says so.
pub record IsStopped {W : Type 0} (o : Outside W) (m : Dict Subscription) (w : W) (st' : State W)
    : Type 0 where
  pub none_left : AreFree st'.0.subscriptions
  pub stopped : AreStopped o m w st'.1
  pub reported : st'.0.status ≡ degraded

-- Stopped, and no source may dispatch, at any time.
pub record IsClosed {W : Type 0} (o : Outside W) (m : Dict Subscription) (w : W) (st' : State W)
    : Type 0 where
  pub stopped : IsStopped o m w st'
  pub shut : (now : ℕ) (id : String) → allowed now id st'.0 ≡ false

module _ {W : Type 0} (o : Outside W) where
  -- The three questions of a pass, one behind the other.
  abbrev pub leased : W → W × Bool
  leased w = o.renew_lease w

  abbrev pub listed : W → W × Option (List DesiredSubscription)
  listed w = o.list_subscriptions (leased w).0

  abbrev pub pinged : W → W × Bool
  pinged w = o.ping (listed w).0

  -- One of them was not answered.
  abbrev pub IsRefused : W → Type 0
  IsRefused w = ((leased w).1 ≡ false) ⊎ ((listed w).1 ≡ none) ⊎ ((pinged w).1 ≡ false)

  -- All of them were, with these desired states.
  pub record IsAnswered (w : W) (desired : List DesiredSubscription) : Type 0 where
    pub renewed : (leased w).1 ≡ true
    pub wanted : (listed w).1 ≡ some desired
    pub kafka : (pinged w).1 ≡ true

  abbrev pub refreshed : State W → State W
  refreshed (s, w) =
      let w' = (pinged w).0 in
      (record s { control = true; kafka = true; lease_until = o.now w' + lease_ttl }, w')

  -- Every observation is stored, or one is not, which ends it.
  abbrev pub AreReported : List DesiredSubscription → W → W → Type 0
  AreReported [] w w' = w' ≡ w
  AreReported (d ∷ ds) w w' =
      let (v, stored) = o.observe d.id d.revision d.desired w in
      (stored ≡ true) × AreReported ds v w'

  abbrev pub IsUnreported : List DesiredSubscription → W → W → Type 0
  IsUnreported [] w w' = ⊥
  IsUnreported (d ∷ ds) w w' =
      let (v, stored) = o.observe d.id d.revision d.desired w in
      (stored ≡ false) × (w' ≡ v) ⊎ (stored ≡ true) × IsUnreported ds v w'

  -- Behind the inspection of the sources, and behind the walk over the desired states.
  abbrev pub inspected : List Source → State W → State W
  inspected sources st = inspect_all o sources (refreshed st)

  abbrev pub moved : List Source → List Destination → List DesiredSubscription → State W → State W
  moved sources destinations desired st =
      reconcile_all o destinations desired (inspected sources st)

  -- The ways of a pass.
  pub data Passed (sources : List Source) (destinations : List Destination) (st st' : State W)
      : Type 0 where
    refused :
        IsRefused st.1
        → IsClosed o st.0.subscriptions (pinged st.1).0 st'
        → Passed sources destinations st st'
    interrupted :
        (desired : List DesiredSubscription)
        → IsAnswered st.1 desired
        → o.ended (inspected sources st).1 ≡ true
        → IsStopped o (inspected sources st).0.subscriptions (inspected sources st).1 st'
        → Passed sources destinations st st'
    unreported :
        (desired : List DesiredSubscription) (w : W)
        → IsAnswered st.1 desired
        → o.ended (inspected sources st).1 ≡ false
        → IsUnreported
            (observations (moved sources destinations desired st).0.subscriptions)
            (moved sources destinations desired st).1
            w
        → IsClosed o (moved sources destinations desired st).0.subscriptions w st'
        → Passed sources destinations st st'
    converged :
        (desired : List DesiredSubscription)
        → IsAnswered st.1 desired
        → o.ended (inspected sources st).1 ≡ false
        → AreReported
            (observations (moved sources destinations desired st).0.subscriptions)
            (moved sources destinations desired st).1
            st'.1
        → st'.0 ≡ record (moved sources destinations desired st).0 { status = st'.0.status }
        → HasStatus st'.0
        → Passed sources destinations st st'
