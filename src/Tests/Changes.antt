-- ===== src/Tests/Changes.antt =====
-- A pause that an operator asks for: the first round sees it pending, the second one applied.
use postie.Prelude.{
  ℕ, suc, ◌-◌, ◌≤◌, ◌<◌, ◌≡◌, ◌≢◌, refl, false, true, none, some, [], ◌∷◌, lookup, arith, leb,
}
use postie.Activity.{new}
use postie.Control.{
  SubscriptionState, running, paused, Service, EngineStatus, Subscription, DesiredSubscription,
  View,
}
use postie.Control.Outside.{State}
use postie.Control.Convergence.{Caller, change}
use postie.Control.Convergence.Waiting.{IsConverged, change-IsConverged}
use postie.Control.Convergence.Termination.{change_total}

abbrev mail : SubscriptionState → ℕ → Subscription
mail state revision = record {
  view = record { id = "mail"; state = state; desired_state = state; error = "" };
  revision = revision;
  consumer = none;
}

abbrev service : SubscriptionState → ℕ → Service
service state revision = record {
  status = EngineStatus.ready;
  kafka = true;
  control = true;
  streams = [];
  source_states = [];
  subscriptions = ("mail", mail state revision) ∷ [];
  lease_until = 100;
  log = new [] none;
  wake = false;
}

-- The control loop has paused the subscription by the next tick.
abbrev caller : Caller ℕ
caller = record {
  set_desired = λ id state st. (st, some (record { id = id; desired = state; revision = 4 }));
  observed = λ id revision state st. (st, some true);
  tick = λ st. ((service paused 4, suc st.1), leb 9 st.1);
}

abbrev asked : State ℕ
asked = (service running 3, 0)

abbrev paused_view : View
paused_view = record { id = "mail"; state = paused; desired_state = paused; error = "" }

left : ℕ → ℕ
left w = 10 - w

tick_falls : (st : State ℕ) → (caller.tick st).1 ≡ false → left (caller.tick st).0.1 < left st.1
unfolding left
tick_falls st h = ground arith

observed_keeps :
    (revision : ℕ) (st : State ℕ) → left (caller.observed "mail" revision paused st).0.1 ≤ left st.1
observed_keeps revision st = omega arith

change_total_example : change caller 11 "mail" paused asked ≢ none
unfolding left
change_total_example =
    change_total caller "mail" paused left tick_falls observed_keeps 11 asked (omega arith)
      (omega arith)

change-IsConverged_example :
    (lookup "mail" asked.0.subscriptions ≢ none)
    × ((d : DesiredSubscription) × ((caller.set_desired "mail" paused asked).1 ≡ some d)
        × IsConverged caller "mail" paused d.revision (service paused 4, 1) paused_view)
unfolding change
change-IsConverged_example =
    change-IsConverged caller 11 "mail" paused asked (service paused 4, 1)
      (record { view = paused_view; error = none }) refl refl
