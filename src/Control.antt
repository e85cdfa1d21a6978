-- ===== src/Control.antt =====
-- internal/control/state.go, and the types of internal/control/service.go.
pub mod Outside
pub mod Sources
pub mod Subscriptions
pub mod Reconcile
pub mod Convergence
pub mod Running
use postie.Prelude.{
  ℕ, String, Bool, true, false, not, ◌&&◌, ◌||◌, Option, none, some, List, [], ◌∷◌, ◌==◌,
  if◌then◌else◌, Dict, eqb,
}
use postie.Activity.{Log}
use postie.Stream.{Registration, Source, Scope}

-- `SubscriptionState`, a string: the named constants and any other text.
pub data SubscriptionState : Type 0 where
  running paused starting pausing blocked : SubscriptionState
  other : String → SubscriptionState

unfoldable pub state_eq : SubscriptionState → SubscriptionState → Bool
state_eq running running = true
state_eq paused paused = true
state_eq starting starting = true
state_eq pausing pausing = true
state_eq blocked blocked = true
state_eq (other s) (other t) = s == t
state_eq _ _ = false

unfoldable pub state_text : SubscriptionState → String
state_text running = "running"
state_text paused = "paused"
state_text starting = "starting"
state_text pausing = "pausing"
state_text blocked = "blocked"
state_text (other s) = s

-- A source's state, a string that the monitor reports.
abbrev pub source_starting : String
source_starting = "starting"

abbrev pub source_running : String
source_running = "running"

abbrev pub source_blocked : String
source_blocked = "blocked"

abbrev pub source_unavailable : String
source_unavailable = "unavailable"

-- The engine's status.
pub data EngineStatus : Type 0 where
  starting ready degraded : EngineStatus

-- `Subscription`: the operator's view of one destination.
pub record View : Type 0 where
  pub id : String
  pub state : SubscriptionState
  pub desired_state : SubscriptionState
  pub error : String

pub record SourceStatus : Type 0 where
  pub id : String
  pub state : String
  pub error : String

abbrev pub no_source_status : SourceStatus
no_source_status = record { id = ""; state = ""; error = "" }

pub record DesiredSubscription : Type 0 where
  pub id : String
  pub desired : SubscriptionState
  pub revision : ℕ  -- int64, positive in every row of the store

unfoldable pub is_paused : DesiredSubscription → Bool
unfolding state_eq
is_paused d = state_eq d.desired paused

-- `subscription`. A consumer is named by a number.
pub record Subscription : Type 0 where
  pub view : View
  pub revision : ℕ
  pub consumer : Option ℕ

pub record Destination : Type 0 where
  pub id : String
  pub sources : List String

-- The fields of `Service` that `mu` guards, its log, and whether `wake` holds a signal.
pub record Service : Type 0 where
  pub status : EngineStatus
  pub kafka : Bool
  pub control : Bool
  pub streams : Dict Registration
  pub source_states : Dict SourceStatus
  pub subscriptions : Dict Subscription
  pub lease_until : ℕ
  pub log : Log
  pub wake : Bool

sources_running : Dict SourceStatus → Bool
sources_running [] = true
sources_running ((k, s) ∷ m) = s.state == source_running && sources_running m

is_healthy : SubscriptionState → Bool
unfolding state_eq
is_healthy s = state_eq s running || state_eq s paused

subscriptions_healthy : Dict Subscription → Bool
unfolding is_healthy
subscriptions_healthy [] = true
subscriptions_healthy ((k, s) ∷ m) = is_healthy s.view.state && subscriptions_healthy m

unfoldable pub overall_status : Dict SourceStatus → Dict Subscription → EngineStatus
unfolding sources_running subscriptions_healthy
overall_status sources subscriptions =
    if not (sources_running sources)
    then degraded
    else if not (subscriptions_healthy subscriptions)
    then degraded
    else ready

unfoldable pub resting_state : DesiredSubscription → String → SubscriptionState × String
unfolding is_paused
resting_state desired reason = if is_paused desired then (paused, "") else (blocked, reason)

unfoldable pub pending_state : SubscriptionState → SubscriptionState
unfolding state_eq
pending_state requested = if state_eq requested paused then pausing else SubscriptionState.starting
