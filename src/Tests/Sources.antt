-- ===== src/Tests/Sources.antt =====
-- A block and what follows it, on a world that is a clock; workers raise a block in every call.
use postie.Prelude.{ℕ, suc, ◌≡◌, ◌≢◌, refl, false, true, some, [], ◌∷◌, ne_of_false, none}
use postie.Stream.{Source, Registration, no_registration}
use postie.Activity.{new}
use postie.Control.{Service, EngineStatus, source_running, source_blocked}
use postie.Control.Outside.{Outside, found, State}
use postie.Control.Sources.{allowed, block, inspect_source}
use postie.Control.Sources.Latch.{HasReasons}
use postie.Control.Sources.Fence.{none_yet, next, inspected, broken, block-allowed}

abbrev pub registered : Registration
registered = record no_registration { source_id = "orders" }

abbrev pub outside : Outside ℕ
outside = record {
  now = λ w. w;
  ended = λ w. false;
  renew_lease = λ w. (suc w, true);
  list_subscriptions = λ w. (w, some []);
  ping = λ w. (w, true);
  get_stream = λ id w. (suc w, found registered);
  block_source = λ id reason w. (suc w, false);
  inspect = λ source r w. (suc w, (source_running, ""));
  new_consumer = λ d r w. (suc w, some w);
  run = λ c w. suc w;
  cancel = λ c w. suc w;
  stop = λ c w. suc w;
  ready = λ c w. true;
  finished = λ c w. false;
  observe = λ id revision state w. (suc w, true);
  meanwhile = λ w. ("invoices", "invalid event") ∷ [];
}

abbrev pub orders : Source
orders = record {
  id = "orders";
  description = "";
  table = "public.orders";
  columns = [];
  serial_column = "n";
  partitioning_column = "n";
}

abbrev pub service : Service
service = record {
  status = EngineStatus.ready;
  kafka = true;
  control = true;
  streams = ("orders", registered) ∷ [];
  source_states = ("orders", record { id = "orders"; state = source_running; error = "" }) ∷ [];
  subscriptions = [];
  lease_until = 100;
  log = new [] none;
  wake = false;
}

pub outside_reasons : (w : ℕ) → HasReasons outside (outside.meanwhile w)
outside_reasons w = (ne_of_false "invalid event" "" refl, tt)

outside_explains :
    (source : Source) (r : Registration) (w : ℕ)
    → (outside.inspect source r w).1.0 ≡ source_blocked
    → (outside.inspect source r w).1.1 ≢ ""
outside_explains source r w h = absurd (ne_of_false source_running source_blocked refl h)

abbrev fenced_state : State ℕ
fenced_state = block outside "orders" "history lost" (service, 7)

abbrev later : State ℕ
later = inspect_source outside orders fenced_state

block-allowed_example : allowed 20 "orders" (block outside "orders" "invalid event" later).0 ≡ false
block-allowed_example =
    block-allowed outside outside_reasons outside_explains "orders" "history lost" (service, 7) 20
      (ne_of_false "history lost" "" refl)
      (next (next none_yet (inspected orders fenced_state))
        (broken "orders" "invalid event" later (ne_of_false "invalid event" "" refl)))
