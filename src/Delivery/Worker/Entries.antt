-- ===== src/Delivery/Worker/Entries.antt =====
-- The activity entries of internal/delivery/worker.go.
use postie.Prelude.{ℕ, ◌+◌, String, Option, none, some}
use postie.Activity.{Entry, no_entry}
use postie.Stream.{Record}
use postie.Delivery.Effects.{Error}
use postie.Delivery.Processor.{Outcome, outcome_string}

unfoldable pub entry_for : Record → String → Entry
entry_for r destination = record no_entry {
  source = r.source.id;
  destination = destination;
  generation = r.generation;
  topic = r.topic;
  partition = r.partition;
  offset = r.offset;
  event_id = r.event_id;
  aggregate_id = r.aggregate_id;
  event_name = r.event_name;
}

unfoldable pub started_entry : Entry → Entry
started_entry entry = record entry { message = "delivery started" }

-- `attempt` counts from 0, the log from 1.
unfoldable pub attempt_entry : Entry → ℕ → Option Error → Entry
attempt_entry entry attempt none = record entry { attempt = attempt + 1; message = "acknowledged" }
attempt_entry entry attempt (some e) = record entry {
  attempt = attempt + 1;
  message = "retry";
  level = "warn";
  error = "delivery failed or retry requested";
}

unfoldable pub outcome_entry : Entry → Outcome → Entry
unfolding outcome_string
outcome_entry entry outcome = record entry {
  message = "terminal outcome";
  outcome = outcome_string outcome;
}

unfoldable pub committed_entry : Entry → Entry
committed_entry entry = record entry { message = "committed" }

unfoldable pub commit_retry_entry : Entry → Entry
commit_retry_entry entry = record entry {
  level = "warn";
  message = "commit retry";
  error = "Kafka commit unavailable";
}
