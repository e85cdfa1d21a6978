-- ===== src/Tests/Journeys.antt =====
-- One record from Kafka to its commit, as internal/app/app.go wires it.
use postie.Prelude.{ℕ, suc, ◌≡◌, refl, true, none, some, [], ◌∷◌, insert, pos}
use postie.Encoding.{key_is}
use postie.Stream.{Registration, RawRecord, no_registration}
use postie.Config
use postie.Control
use postie.Protocol.{decode_acknowledgement, matches_filter}
use postie.Delivery.Effects.{Result, ok, Context, ctx_sleep}
use postie.Delivery.Retry.{retry}
use postie.Delivery.Processor as Processors
use postie.Delivery.Worker.{process_raw, complete_record, actions_for, commit, send}
use postie.Sending as Sending
use postie.Wiring.Workers.{Wiring, no_destination, worker, workers, process}
use postie.Wiring.Workers.Delivered.{IsDelivered, process-IsDelivered}
use postie.Tests.Decodings.{orders, identity, raw_of, methods}
use postie.Tests.Sendings.{success_body}

abbrev registration : Registration
registration = record no_registration {
  source_id = "orders";
  identity = identity;
  names = record {
    topic_prefix = "postie";
    topic = "postie.public.orders";
    connector = "c";
    slot = "s";
    publication = "p";
  };
}

abbrev mail : Config.Destination
mail = record no_destination { id = "mail"; sources = "orders" ∷ [] }

abbrev wiring : Wiring ℕ
wiring = record {
  destinations = ("mail", mail) ∷ [];
  sources = ("orders", orders) ∷ [];
  registered = ("orders", registration) ∷ [];
  scope = record { namespace = "postie"; environment = "test"; generation = pos 1 };
  gate = record { allowed = λ id w. true; block = λ id reason w. w };
  log = λ e w. w;
  has_skip = λ s d r w. (w, ok true);
  save_skip = λ s d r w. (w, ok tt);
  exchange = λ d r body w. (suc w, ok (record { status = 200; size = 25; body = success_body }));
  sleep = λ delay w. (w, none);
  jitter = λ bound w. (w, 0);
  explain = λ e. "";
}

abbrev live : Context ℕ
live = record { error = λ w. none; wait = λ delay w. (suc w, true) }

abbrev destination : Control.Destination
destination = record { id = "mail"; sources = "orders" ∷ [] }

abbrev commit_func : RawRecord → ℕ → ℕ × Result (Unit {0})
commit_func r w = (suc w, ok tt)

-- One request, and one commit.
delivered : process wiring destination 2 live (raw_of "c" "acme") commit_func 0 ≡ some (2, ok tt)
unfolding methods process workers worker process_raw complete_record retry actions_for send commit
    ctx_sleep Processors.process Processors.marshal Processors.envelope_for Sending.send
    decode_acknowledgement key_is insert matches_filter
delivered = refl

process-IsDelivered_example :
    IsDelivered wiring mail destination live (raw_of "c" "acme") commit_func 0 2
process-IsDelivered_example =
    process-IsDelivered wiring destination 2 live (raw_of "c" "acme") commit_func 0 2 delivered
