-- ===== src/Wiring/Workers.antt =====
-- The workers of one destination, as internal/app/app.go builds them for its consumer.
pub mod Delivered
use postie.Prelude.{
  ℕ, String, Bool, true, false, Option, none, some, List, [], ◌∷◌, map, ◌==◌, Dict, lookup_or,
  lookup, insert, ℤ, if◌then◌else◌, pos,
}
use postie.Prelude.Tries.{Try}
use postie.Activity.{Entry}
use postie.Encoding.{Json}
use postie.Stream.{Source, no_source, Scope, Record, RawRecord, Registration, no_registration}
use postie.Config
use postie.Protocol.{Envelope, Filter}
use postie.Delivery.Effects.{Error, failed, Result, ok, err, Context}
use postie.Delivery.Processor.{Processor, Destination}
use postie.Delivery.Worker.{Gate, Worker, process_raw}
use postie.Sending.{Response, Client, send}
use postie.Debezium.{Failure, decode}
use postie.Control

-- What the factories close over: `wiring`, the gate, and the calls of the adapters. `explain` is
-- `Error()` of a decoding error.
pub record Wiring (W : Type 0) : Type 0 where
  pub destinations : Dict Config.Destination
  pub sources : Dict Source
  pub registered : Dict Registration
  pub scope : Scope
  pub gate : Gate W
  pub log : Entry → W → W
  pub has_skip : Scope → String → Record → W → W × Result Bool
  pub save_skip : Scope → String → Record → W → W × Result (Unit {0})
  pub exchange : Config.Destination → Record → Envelope → W → W × Result Response
  pub sleep : ℕ → W → W × Option Error
  pub jitter : ℕ → W → W × ℕ
  pub explain : Failure → String

abbrev pub no_destination : Config.Destination
no_destination = record {
  id = "";
  description = "";
  type = "";
  endpoint = "";
  username = "";
  password = "";
  sources = [];
  filter = none;
}

-- `destinationsByID`
unfoldable pub destinations_by_id :
    List Config.Destination → Dict Config.Destination → Dict Config.Destination
destinations_by_id [] by_id = by_id
destinations_by_id (d ∷ rest) by_id = destinations_by_id rest (insert d.id d by_id)

-- `controlDestinations`
abbrev pub control_destinations : List Config.Destination → List Control.Destination
control_destinations = map (λ d. record { id = d.id; sources = d.sources })

-- `orderedSources`
abbrev pub ordered_sources : Dict Source → List Config.Source → List Source
ordered_sources by_id = map (λ s. lookup_or s.id by_id no_source)

-- `filterFor`
abbrev pub filter_for : Option Config.Filter → Option Filter
filter_for none = none
filter_for (some f) = some (record { column = f.column; values = f.values })

abbrev pub lift_decoded : (Failure → String) → Try Failure Record → Result Record
lift_decoded explain (Try.ok r) = ok r
lift_decoded explain (Try.err e) = err (failed (explain e))

module _ {W : Type 0} (a : Wiring W) where
  unfoldable pub client : Config.Destination → Source → Client W
  client input source = record {
    gate = some a.gate;
    source = source.id;
    exchange = a.exchange input;
  }

  -- `worker`
  unfoldable pub worker : Config.Destination → Source → Registration → Worker W
  unfolding client
  worker input source registration = record {
    processor = record {
      send = send (client input source);
      destination = record {
        id = input.id;
        description = input.description;
        filter = filter_for input.filter;
      };
      sleep = a.sleep;
      jitter = a.jitter;
    };
    decode = λ raw.
        lift_decoded a.explain (decode source registration.identity a.scope.generation (some raw));
    has_skip = a.has_skip;
    save_skip = a.save_skip;
    scope = a.scope;
    destination = input.id;
    source_id = source.id;
    gate = some a.gate;
    log = some a.log;
  }

  abbrev pub source_of : String → Source
  source_of id = lookup_or id a.sources no_source

  abbrev pub registration_of : String → Registration
  registration_of id = lookup_or id a.registered no_registration

  unfoldable pub topics : List String → Dict Source → Dict Source
  topics [] built = built
  topics (id ∷ ids) built =
      topics ids (insert (registration_of id).names.topic (source_of id) built)

  unfoldable pub workers : Config.Destination → List String → Dict (Worker W) → Dict (Worker W)
  unfolding worker
  workers input [] built = built
  workers input (id ∷ ids) built = workers input ids (
      insert (registration_of id).names.topic (worker input (source_of id) (registration_of id))
        built)

  abbrev pub process_with :
      Option (Worker W)
      → ℕ
      → Context W
      → RawRecord
      → (RawRecord → W → W × Result (Unit {0}))
      → W
      → Option (W × Result (Unit {0}))
  process_with none fuel c raw commit w = none
  process_with (some k) fuel c raw commit w = process_raw k fuel c raw commit w

  -- `Process` of the options of `consumer`; a topic without a worker would be a nil worker.
  unfoldable pub process :
      Control.Destination
      → ℕ
      → Context W
      → RawRecord
      → (RawRecord → W → W × Result (Unit {0}))
      → W
      → Option (W × Result (Unit {0}))
  unfolding workers
  process destination fuel c raw commit w =
      process_with
        (lookup raw.topic
          (workers (lookup_or destination.id a.destinations no_destination) destination.sources []))
        fuel c raw commit w
