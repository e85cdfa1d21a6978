-- ===== src/Tests/Stores.antt =====
-- internal/adapters/controlpg on a few rows.
use postie.Prelude.{true, false, not, ◌&&◌, none, List, [], ◌∷◌, ◌==◌, ◌≡◌, ◌↔◌, refl, pos, ltb}
use postie.Encoding.{null}
use postie.Stream.{Scope}
use postie.Delivery.Effects.{ok}
use postie.ControlStore.{
  Tables, no_tables, Connection, answers, refuses, breaks, transaction, checked, valid_scope,
  is_blank, find, insert_new, update, delete, mark_partition_started,
}
use postie.ControlStore.Streams.{Codec}
use postie.ControlStore.Leases.{release_lease}
use postie.ControlStore.Subscriptions.{set_desired, subscription_observed}
use postie.ControlStore.Subscriptions.Observation.{IsObserved, subscription_observed-IsObserved}
use postie.ControlStore.Calls.{StoreCall, sets, releases, marks, apply, run}
use postie.ControlStore.Growth.{IsLater}
use postie.ControlStore.Growth.Run.{run-IsLater}

abbrev codec : Codec
codec = record {
  encode_identity = λ i. null;
  encode_names = λ n. null;
  decode_identity = λ j. none;
  decode_names = λ j. none;
  json_equal = λ a b. true;
}

abbrev scope : Scope
scope = record { namespace = "postie"; environment = "test"; generation = pos 1 }

-- One subscription, and two workers of which one has observed its revision.
abbrev tables : Tables
tables = record no_tables {
  subscriptions =
      record { scope = scope; destination_id = "mail"; desired = "running"; revision = 1 } ∷ [];
  leases =
      record { scope = scope; worker_id = "a"; expires_at = pos 10 }
      ∷ record { scope = scope; worker_id = "b"; expires_at = pos 20 }
      ∷ [];
  observations =
      record {
        scope = scope;
        worker_id = "b";
        destination_id = "mail";
        revision = 1;
        state = "running";
      }
      ∷ [];
}

-- While the lease of `a` lives, its silence counts.
early : subscription_observed scope (pos 9) "mail" 1 "running" answers tables ≡ (tables, ok false)
unfolding subscription_observed transaction checked valid_scope is_blank find
early = refl

late : subscription_observed scope (pos 10) "mail" 1 "running" answers tables ≡ (tables, ok true)
unfolding subscription_observed transaction checked valid_scope is_blank find
late = refl

subscription_observed-IsObserved_example :
    (subscription_observed scope (pos 10) "mail" 1 "running" answers tables ≡ (tables, ok true))
    ↔ (valid_scope scope ≡ true)
      × ((not ("mail" == "") && ltb 0 1 && not (is_blank "running")) ≡ true)
      × IsObserved scope (pos 10) "mail" 1 "running" tables
subscription_observed-IsObserved_example =
    subscription_observed-IsObserved scope (pos 10) "mail" 1 "running" tables

abbrev calls : List (StoreCall × Connection)
calls =
    (sets scope "mail" "paused", breaks)
    ∷ (sets scope "mail" "paused", answers)
    ∷ (sets scope "mail" "running", refuses)
    ∷ (marks scope "mail" "postie.orders" (pos 0), answers)
    ∷ (releases scope "b", answers)
    ∷ []

after_calls : run codec calls tables ≡ record tables {
  subscriptions =
      record { scope = scope; destination_id = "mail"; desired = "paused"; revision = 2 } ∷ [];
  leases = record { scope = scope; worker_id = "a"; expires_at = pos 10 } ∷ [];
  observations = [];
  started =
      record { scope = scope; destination_id = "mail"; topic = "postie.orders"; partition = pos 0 }
      ∷ [];
}
unfolding run apply set_desired mark_partition_started release_lease transaction checked valid_scope
    is_blank find insert_new update delete
after_calls = refl

run-IsLater_example : IsLater tables (run codec calls tables)
run-IsLater_example = run-IsLater codec calls tables
