-- ===== src/Control/Convergence.antt =====
-- `New`, `Change` and `awaitConvergence` of internal/control/service.go. While the caller waits, the
-- control loop goes on: a call of the world may leave any other service behind.
pub mod Waiting
pub mod Termination
use postie.Prelude.{
  ℕ, zero, suc, String, Bool, true, false, not, ◌&&◌, ◌||◌, Option, none, some, List, [], ◌∷◌,
  is_some, if◌then◌else◌, Dict, lookup, insert, ltb, leb,
}
use postie.Activity.{Log}
use postie.Stream.{Source, Scope, valid}
use postie.Control.{
  SubscriptionState, running, other, state_eq, pending_state, EngineStatus, View, Subscription,
  SourceStatus, source_starting, Destination, Service, DesiredSubscription,
}
use postie.Control.Outside.{State}

-- The calls of a change: two of the store, and the wait for the ticker, which says whether the
-- caller's context ended first.
pub record Caller (W : Type 0) : Type 0 where
  pub set_desired : String → SubscriptionState → State W → State W × Option DesiredSubscription
  pub observed : String → ℕ → SubscriptionState → State W → State W × Option Bool
  pub tick : State W → State W × Bool

-- The returned view, and the error if there is one.
pub record Changed : Type 0 where
  pub view : View
  pub error : Option String

abbrev pub no_view : View
no_view = record { id = ""; state = other ""; desired_state = other ""; error = "" }

known : Option Subscription → View × ℕ
known none = (no_view, 0)
known (some x) = (x.view, x.revision)

-- `snapshot`; whether the subscription exists is `lookup`'s answer.
unfoldable pub snapshot : String → Service → View × ℕ
unfolding known
snapshot id s = known (lookup id s.subscriptions)

module _ {W : Type 0} (o : Caller W) (id : String) (state : SubscriptionState) (revision : ℕ) where
  -- This worker has done what was asked.
  unfoldable pub is_applied : View × ℕ → Bool
  unfolding state_eq
  is_applied (view, applied) =
      leb revision applied && state_eq view.state state && state_eq view.desired_state state

  is_superseded : View × ℕ → Bool
  unfolding state_eq
  is_superseded (view, applied) = ltb revision applied && not (state_eq view.desired_state state)

  after_tick :
      (State W → Option (State W × Changed)) → View → State W × Bool → Option (State W × Changed)
  after_tick again view (st, true) = some (st, record { view = view; error = some "context ended" })
  after_tick again view (st, false) = again st

  -- The end of a round, with the view that is returned if it is the last one.
  next_round :
      (State W → Option (State W × Changed))
      → View
      → View × ℕ
      → State W
      → Option (State W × Changed)
  unfolding is_superseded after_tick
  next_round again view seen st =
      if is_superseded seen
      then some (st, record { view = view; error = some "control request superseded" })
      else after_tick again view (o.tick st)

  -- A round behind the store's answer.
  after_observed :
      (State W → Option (State W × Changed))
      → View × ℕ
      → State W × Option Bool
      → Option (State W × Changed)
  unfolding next_round
  after_observed again seen (st, none) =
      some (st, record { view = seen.0; error = some "worker observation unavailable" })
  after_observed again seen (st, some true) = some (st, record { view = seen.0; error = none })
  after_observed again seen (st, some false) =
      next_round again (record seen.0 { state = pending_state state }) seen st

  round : (State W → Option (State W × Changed)) → View × ℕ → State W → Option (State W × Changed)
  unfolding is_applied after_observed next_round
  round again seen st =
      if is_applied seen
      then after_observed again seen (o.observed id revision state st)
      else next_round again seen.0 seen st

  -- The loop; `none` is fuel that ran out.
  unfoldable pub await_convergence : ℕ → State W → Option (State W × Changed)
  unfolding round
  await_convergence zero st = none
  await_convergence (suc fuel) st = round (await_convergence fuel) (snapshot id st.0) st

module _ {W : Type 0} (o : Caller W) (fuel : ℕ) (id : String) (state : SubscriptionState) where
  after_desired : State W × Option DesiredSubscription → Option (State W × Changed)
  unfolding await_convergence snapshot
  after_desired (st, none) =
      some (st, record { view = (snapshot id st.0).0; error = some "control store unavailable" })
  after_desired ((s, w), some d) =
      await_convergence o id state d.revision fuel (record s { wake = true }, w)

  -- `Change`
  unfoldable pub change : State W → Option (State W × Changed)
  unfolding after_desired
  change st =
      if not (is_some (lookup id st.0.subscriptions))
      then some (st, record { view = no_view; error = some "subscription not found" })
      else after_desired (o.set_desired id state st)

-- The maps that `New` fills.
starting_subscriptions : List Destination → Dict Subscription → Dict Subscription
starting_subscriptions [] m = m
starting_subscriptions (d ∷ ds) m = starting_subscriptions ds (
    insert d.id
      (record {
        view = record {
          id = d.id;
          state = SubscriptionState.starting;
          desired_state = other "";
          error = "";
        };
        revision = 0;
        consumer = none;
      })
      m)

starting_sources : List Source → Dict SourceStatus → Dict SourceStatus
starting_sources [] m = m
starting_sources (x ∷ xs) m =
    starting_sources xs (insert x.id (record { id = x.id; state = source_starting; error = "" }) m)

-- `New`, with whether the store could ensure the subscriptions.
unfoldable pub new_service : Scope → List Source → List Destination → Log → Bool → Option Service
unfolding starting_subscriptions starting_sources
new_service scope sources destinations log ensured =
    if not (valid scope.generation) || not ensured
    then none
    else some (record {
      status = EngineStatus.starting;
      kafka = false;
      control = false;
      streams = [];
      source_states = starting_sources sources [];
      subscriptions = starting_subscriptions destinations [];
      lease_until = 0;
      log = log;
      wake = false;
    })
