-- ===== src/Tests/Passes.antt =====
-- The control loop on two destinations, one of them paused in the store; the world is a clock.
use mathlib.Core.List.{Memᴰ}
use postie.Prelude.{
  ℕ, suc, pos, ◌≤◌, ◌≡◌, ◌≢◌, refl, String, Bool, false, true, Option, none, some, List, [], ◌∷◌,
  ne_of_false, ◌==◌, Bool-cases, arith, inl, inr,
}
use postie.Stream.{Source, Registration, no_registration}
use postie.Activity.{new}
use postie.Control.{
  SubscriptionState, running, paused, starting, Service, EngineStatus, source_running, Subscription,
  DesiredSubscription, Destination, is_paused,
}
use postie.Control.Outside.{Outside, found, State}
use postie.Control.Subscriptions.{reconcile_subscription}
use postie.Control.Subscriptions.Invariant.{entry}
use postie.Control.Sources.Frame.{subs}
use postie.Control.Subscriptions.Readiness.{AreSources}
use postie.Control.Subscriptions.Reached.{IsReached}
use postie.Control.Subscriptions.Progress.{reconcile_subscription-IsReached}
use postie.Control.Reconcile.{reconcile, reconcile_all}
use postie.Control.Reconcile.Ways.{Passed}
use postie.Control.Reconcile.Stopping.{reconcile-IsClosed}
use postie.Control.Reconcile.Passes.{AllConsistent, reconcile-AllConsistent}
use postie.Control.Reconcile.Pausing.{IsPaused, reconcile_all-IsPaused}
use postie.Control.Running.{Loop, done, start}
use postie.Control.Running.Shutdown.{IsShutDown, start-IsShutDown, start_total}

abbrev row : String → SubscriptionState → DesiredSubscription
row id state = record { id = id; desired = state; revision = 4 }

abbrev listed : List DesiredSubscription
listed = row "mail" running ∷ row "audit" paused ∷ []

abbrev registered : Registration
registered = record no_registration { source_id = "orders" }

abbrev outside : Bool → Outside ℕ
outside kafka = record {
  now = λ w. w;
  ended = λ w. false;
  renew_lease = λ w. (suc w, true);
  list_subscriptions = λ w. (suc w, some listed);
  ping = λ w. (suc w, kafka);
  get_stream = λ id w. (suc w, found registered);
  block_source = λ id reason w. (suc w, true);
  inspect = λ source r w. (suc w, (source_running, ""));
  new_consumer = λ d r w. (suc w, some w);
  run = λ c w. suc w;
  cancel = λ c w. suc w;
  stop = λ c w. suc w;
  ready = λ c w. true;
  finished = λ c w. false;
  observe = λ id revision state w. (suc w, true);
  meanwhile = λ w. [];
}

abbrev orders : Source
orders = record {
  id = "orders";
  description = "";
  table = "public.orders";
  columns = [];
  serial_column = "n";
  partitioning_column = "n";
}

abbrev destinations : List Destination
destinations =
    record { id = "mail"; sources = "orders" ∷ [] }
    ∷ record { id = "audit"; sources = "orders" ∷ [] }
    ∷ []

abbrev active : String → Option ℕ → SubscriptionState → Subscription
active id consumer state = record {
  view = record { id = id; state = state; desired_state = running; error = "" };
  revision = 3;
  consumer = consumer;
}

abbrev mail : Subscription
mail = active "mail" none starting

abbrev audit : Subscription
audit = active "audit" (some 1) running

abbrev service : Service
service = record {
  status = EngineStatus.ready;
  kafka = true;
  control = true;
  streams = ("orders", registered) ∷ [];
  source_states = ("orders", record { id = "orders"; state = source_running; error = "" }) ∷ [];
  subscriptions = ("mail", mail) ∷ ("audit", audit) ∷ [];
  lease_until = 100;
  log = new [] none;
  wake = false;
}

abbrev before : State ℕ
before = (service, 7)

reconcile_subscription-IsReached_example :
    (x' : Subscription) × (entry "mail"
        (reconcile_subscription (outside true) destinations (row "mail" running) before)
      ≡ some x')
    × ((ids : List String) × AreSources destinations "mail" ids
        × IsReached (row "mail" running) ids service.source_states mail x')
    × ((j : String)
        → "mail" ≢ j
        → entry j (reconcile_subscription (outside true) destinations (row "mail" running) before)
          ≡ entry j before)
reconcile_subscription-IsReached_example =
    reconcile_subscription-IsReached (outside true) destinations (row "mail" running) before mail
      refl

reconcile-IsClosed_example :
    Passed
      (outside false)
      (orders ∷ [])
      destinations
      before
      (reconcile (outside false) (orders ∷ []) destinations before)
reconcile-IsClosed_example = reconcile-IsClosed (outside false) (orders ∷ []) destinations before

reconcile_all-IsPaused_example :
    (x' : Subscription) × (entry "audit" (reconcile_all (outside true) destinations listed before)
      ≡ some x')
    × IsPaused (row "audit" paused) x'
unfolding is_paused
reconcile_all-IsPaused_example =
    reconcile_all-IsPaused (outside true) destinations listed (row "audit" paused) before audit
      ((ne_of_false "audit" "mail" refl, tt), (tt, tt)) (Memᴰ.tail (Memᴰ.head refl)) refl refl

consistent : AllConsistent (subs before)
consistent id x h = elim (Bool-cases ("mail" == id)) [
  | inl a ↦ inl (ground arith)
  | inr b ↦ inr (1, ground arith, ground arith)
]

reconcile-AllConsistent_example :
    AllConsistent (subs (reconcile (outside true) (orders ∷ []) destinations before))
reconcile-AllConsistent_example =
    reconcile-AllConsistent (outside true) (orders ∷ []) destinations before consistent

-- The context ends behind the first pass.
abbrev once : Loop ℕ
once = record { wait = λ st. ((st.0, suc st.1), done); release_lease = λ w. (suc w, true) }

abbrev after_start : Option (State ℕ)
after_start = start (outside true) once (orders ∷ []) destinations (pos 1) 2 before

abbrev last : State ℕ
last = elim after_start [ none ↦ before | some st ↦ st ]

no_more :
    (st : State ℕ)
    → (once.wait (reconcile (outside true) (orders ∷ []) destinations st)).1 ≢ done
    → suc (once.wait (reconcile (outside true) (orders ∷ []) destinations st)).0.1 ≤ st.1
no_more st h = absurd (h refl)

start_total_example : start (outside true) once (orders ∷ []) destinations (pos 1) 20 before ≢ none
start_total_example =
    start_total (outside true) once (orders ∷ []) destinations (λ w. w) no_more (pos 1) 20 before
      (omega arith)

start-IsShutDown_example : IsShutDown (outside true) once (orders ∷ []) destinations last
unfolding start
start-IsShutDown_example =
    start-IsShutDown (outside true) once (orders ∷ []) destinations (pos 1) 2 before last ran
  where
    ran : start (outside true) once (orders ∷ []) destinations (pos 1) 2 before ≡ some last
    ran = refl
