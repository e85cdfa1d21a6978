-- ===== src/Control/Subscriptions.antt =====
-- The subscriptions of internal/control/reconcile.go. Only the control loop writes them, so what
-- workers do meanwhile does not show here. The map's keys do not change after `New`.
pub mod Invariant
pub mod Frame
pub mod Readiness
pub mod Reached
pub mod Progress
use Prim.Native.String
use postie.Prelude.{
  ℕ, String, Bool, true, false, not, ◌&&◌, ◌||◌, Option, none, some, is_some, List, [], ◌∷◌, ◌==◌,
  if◌then◌else◌, Dict, lookup, lookup_or,
}
use postie.Activity.{no_entry}
use postie.Stream.{Registration}
use postie.Control.{
  SubscriptionState, paused, running, starting, pausing, blocked, state_eq, state_text, Service,
  Subscription, DesiredSubscription, is_paused, Destination, resting_state, source_running,
  SourceStatus, no_source_status,
}
use postie.Control.Outside.{Outside, State, log_entry}
use postie.Control.Sources.{stream_of}

-- A write through the pointer of one subscription.
unfoldable pub modify :
    String → (Subscription → Subscription) → Dict Subscription → Dict Subscription
modify id f [] = []
modify id f ((k, s) ∷ m) = if k == id then (k, f s) ∷ m else (k, s) ∷ modify id f m

unfoldable pub modify_in : String → (Subscription → Subscription) → Service → Service
unfolding modify
modify_in id f s = record s { subscriptions = modify id f s.subscriptions }

abbrev pub set_desired_state : SubscriptionState → Subscription → Subscription
set_desired_state desired x = record x { view = record x.view { desired_state = desired } }

abbrev pub set_state : SubscriptionState → Subscription → Subscription
set_state state x = record x { view = record x.view { state = state } }

abbrev pub set_outcome : SubscriptionState → String → Subscription → Subscription
set_outcome state error x = record x { view = record x.view { state = state; error = error } }

abbrev pub set_consumer : Option ℕ → Subscription → Subscription
set_consumer c x = record x { consumer = c }

abbrev pub set_revision : ℕ → Subscription → Subscription
set_revision revision x = record x { revision = revision }

-- `findDestination`, with the zero value for an id that is not configured.
unfoldable pub find_destination : List Destination → String → Destination
find_destination [] id = record { id = ""; sources = [] }
find_destination (d ∷ ds) id = if d.id == id then d else find_destination ds id

-- `destinationReady`: the first source that is not running makes the reason.
pub unready : List String → Dict SourceStatus → Option String
unready [] states = none
unready (id ∷ ids) states =
    if not ((lookup_or id states no_source_status).state == source_running)
    then some (String.◌++◌ "source unavailable: " id)
    else unready ids states

unfoldable pub destination_ready : Destination → Dict SourceStatus → Bool × String
unfolding unready
destination_ready d states = elim (unready d.sources states) [
  | none ↦ (true, "")
  | some reason ↦ (false, reason)
]

-- The registrations that a new consumer is given.
registered_sources : List String → Service → Dict Registration
registered_sources [] s = []
registered_sources (id ∷ ids) s = (id, stream_of id s) ∷ registered_sources ids s

module _ {W : Type 0} (o : Outside W) where
  -- `rest` first stops the consumer, if there is one.
  stop_consumer : String → Option ℕ → State W → State W
  unfolding modify_in
  stop_consumer id none st = st
  stop_consumer id (some c) (s, w) =
      (modify_in id (set_consumer none) (modify_in id (set_state pausing) s), o.stop c w)

  pub log_resting : String → Option Subscription → SubscriptionState × String → State W → State W
  unfolding log_entry state_eq state_text
  log_resting id none outcome st = st
  log_resting id (some previous) (state, error) st =
      if state_eq previous.view.state state
      then st
      else log_entry o
          (record no_entry { message = state_text state; destination = id; error = error }) st

  settle : String → DesiredSubscription → String → State W → State W
  unfolding modify_in log_resting
  settle id desired reason (s, w) =
      let outcome = resting_state desired reason in
      log_resting id (lookup id s.subscriptions) outcome
        (modify_in id (λ x. set_revision desired.revision (set_outcome outcome.0 outcome.1 x)) s, w)

  unfoldable pub rest : String → Option ℕ → DesiredSubscription → String → State W → State W
  unfolding stop_consumer settle
  rest id consumer desired reason st = settle id desired reason (stop_consumer id consumer st)

  -- `newConsumer` and what `ensureConsumer` does with its answer.
  started : String → Option ℕ → State W → State W × Option ℕ
  unfolding modify_in
  started id none (s, w) =
      ((modify_in id (set_outcome blocked "Kafka consumer unavailable") s, w), none)
  started id (some c) (s, w) =
      ((modify_in id (λ x. set_outcome starting "" (set_consumer (some c) x)) s, o.run c w), some c)

  start_consumer : String → Destination → State W → State W × Option ℕ
  unfolding started registered_sources
  start_consumer id d (s, w) =
      let (w', answer) = o.new_consumer d (registered_sources d.sources s) w in
      started id answer (s, w')

  unfoldable pub ensure_consumer : String → Option ℕ → Destination → State W → State W × Option ℕ
  unfolding start_consumer modify_in
  ensure_consumer id none d st = start_consumer id d st
  ensure_consumer id (some c) d (s, w) =
      if o.finished c w
      then start_consumer id d (modify_in id (set_consumer none) s, o.stop c w)
      else ((s, w), some c)

  pub log_running : String → Option Subscription → State W → State W
  unfolding log_entry state_eq
  log_running id none st = st
  log_running id (some previous) st =
      if state_eq previous.view.state running
      then st
      else log_entry o (record no_entry { message = "running"; destination = id }) st

  unfoldable pub mark_progress : String → DesiredSubscription → Bool → State W → State W
  unfolding modify_in log_running
  mark_progress id desired false (s, w) = (modify_in id (set_state starting) s, w)
  mark_progress id desired true (s, w) =
      log_running id (lookup id s.subscriptions)
        (modify_in id (λ x. set_revision desired.revision (set_outcome running "" x)) s, w)

  pub progress : String → DesiredSubscription → State W × Option ℕ → State W
  unfolding mark_progress
  progress id desired (st, none) = st
  progress id desired (st, some c) = mark_progress id desired (o.ready c st.1) st

  -- `reconcileSubscription` behind its lookup; `consumer` is the one that was found.
  move : List Destination → DesiredSubscription → Option ℕ → State W → State W
  unfolding progress rest ensure_consumer
  move destinations desired consumer st =
      let d = find_destination destinations desired.id in
      let (is_ready, reason) = destination_ready d st.0.source_states in
      if is_paused desired || not is_ready
      then rest desired.id consumer desired reason st
      else progress desired.id desired (ensure_consumer desired.id consumer d st)

  -- A destination that the store knows and this configuration does not is passed over.
  move_known : List Destination → DesiredSubscription → Option Subscription → State W → State W
  unfolding move modify_in
  move_known destinations desired none st = st
  move_known destinations desired (some x) (s, w) =
      move destinations desired x.consumer
        (modify_in desired.id (set_desired_state desired.desired) s, w)

  unfoldable pub reconcile_subscription : List Destination → DesiredSubscription → State W → State W
  unfolding move_known
  reconcile_subscription destinations desired st =
      move_known destinations desired (lookup desired.id st.0.subscriptions) st
