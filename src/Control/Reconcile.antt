-- ===== src/Control/Reconcile.antt =====
-- One pass of the control loop (internal/control/reconcile.go).
pub mod Stops
pub mod Status
pub mod Ways
pub mod Stopping
pub mod Passes
pub mod Pausing
use postie.Prelude.{
  ℕ, ◌+◌, ◌*◌, String, Bool, true, false, not, ◌&&◌, ◌||◌, Option, none, some, is_some, List, [],
  ◌∷◌, if◌then◌else◌, Dict, ltb,
}
use postie.Stream.{Source}
use postie.Control.{
  blocked, Service, Subscription, DesiredSubscription, Destination, degraded, overall_status,
}
use postie.Control.Outside.{Outside, State}
use postie.Control.Sources.{inspect_source}
use postie.Control.Subscriptions.{reconcile_subscription, set_consumer, set_outcome}

-- `leaseTTL`, in nanoseconds.
abbrev pub lease_ttl : ℕ
lease_ttl = 30 * 1000000000

-- The consumers that there are, in the map's order.
unfoldable pub consumers : Dict Subscription → List ℕ
consumers [] = []
consumers ((k, x) ∷ m) = elim x.consumer [ none ↦ consumers m | some c ↦ c ∷ consumers m ]

-- The last step of `stopAll` for one subscription, and for all.
unfoldable pub detach : Subscription → Subscription
detach x =
    if is_some x.consumer
    then set_outcome blocked "engine dependencies unavailable" (set_consumer none x)
    else x

unfoldable pub detach_all : Dict Subscription → Dict Subscription
unfolding detach
detach_all [] = []
detach_all ((k, x) ∷ m) = (k, detach x) ∷ detach_all m

-- `observations`: what is reported of every subscription that has applied a revision.
unfoldable pub observations : Dict Subscription → List DesiredSubscription
observations [] = []
observations ((k, x) ∷ m) =
    if ltb 0 x.revision
    then record { id = k; desired = x.view.state; revision = x.revision } ∷ observations m
    else observations m

-- What `refreshDependencies` learns.
pub record Refreshed : Type 0 where
  pub desired : List DesiredSubscription
  pub healthy : Bool

rows : Option (List DesiredSubscription) → List DesiredSubscription
rows none = []
rows (some d) = d

module _ {W : Type 0} (o : Outside W) where
  unfoldable pub refresh_dependencies : State W → State W × Refreshed
  unfolding rows
  refresh_dependencies (s, w) =
      let (w1, lease) = o.renew_lease w in
      let (w2, listed) = o.list_subscriptions w1 in
      let (w3, kafka) = o.ping w2 in
      let control = lease && is_some listed in
      (
        (
          record s {
            control = control;
            kafka = kafka;
            lease_until = if lease then o.now w3 + lease_ttl else s.lease_until;
          },
          w3,
        ),
        record { desired = rows listed; healthy = control && kafka },
      )

  cancel_all : List ℕ → W → W
  cancel_all [] w = w
  cancel_all (c ∷ cs) w = cancel_all cs (o.cancel c w)

  wait_all : List ℕ → W → W
  wait_all [] w = w
  wait_all (c ∷ cs) w = wait_all cs (o.stop c w)

  -- `stopAll` cancels every consumer before it waits for the first.
  unfoldable pub stop_all : State W → State W
  unfolding cancel_all wait_all detach_all
  stop_all (s, w) =
      let cs = consumers s.subscriptions in
      (record s { subscriptions = detach_all s.subscriptions }, wait_all cs (cancel_all cs w))

  unfoldable pub degrade : State W → State W
  unfolding stop_all
  degrade (s, w) = stop_all (record s { status = degraded }, w)

  unfoldable pub inspect_all : List Source → State W → State W
  inspect_all [] st = st
  inspect_all (source ∷ sources) st = inspect_all sources (inspect_source o source st)

  unfoldable pub reconcile_all : List Destination → List DesiredSubscription → State W → State W
  reconcile_all destinations [] st = st
  reconcile_all destinations (d ∷ ds) st =
      reconcile_all destinations ds (reconcile_subscription o destinations d st)

  -- `reportObservations`: the first failure ends it.
  report : List DesiredSubscription → W → W × Bool
  report [] w = (w, true)
  report (d ∷ ds) w =
      let (w', done) = o.observe d.id d.revision d.desired w in
      let rest = report ds w' in if done then rest else (w', false)

  finish : State W × Bool → State W
  unfolding degrade
  finish ((s, w), false) = degrade (record s { control = false }, w)
  finish ((s, w), true) = (record s { status = overall_status s.source_states s.subscriptions }, w)

  converge : List Destination → List DesiredSubscription → State W → State W
  unfolding reconcile_all report finish
  converge destinations desired st =
      let (s, w) = reconcile_all destinations desired st in
      let (w', reported) = report (observations s.subscriptions) w in finish ((s, w'), reported)

  -- `reconcile`, behind the refresh.
  reconcile_with : List Source → List Destination → Refreshed → State W → State W
  unfolding inspect_all converge degrade
  reconcile_with sources destinations r st =
      let st' = if r.healthy then inspect_all sources st else st in
      if not r.healthy || o.ended st'.1 then degrade st' else converge destinations r.desired st'

  unfoldable pub reconcile : List Source → List Destination → State W → State W
  unfolding refresh_dependencies reconcile_with
  reconcile sources destinations st =
      let (st', r) = refresh_dependencies st in reconcile_with sources destinations r st'
