-- ===== src/Tests/Consumers.antt =====
-- internal/adapters/kafka/consumer.go on a world that counts the commits.
use postie.Prelude.{
  ℕ, suc, ◌<◌, ◌≡◌, ◌≢◌, refl, true, false, none, some, Option, List, [], ◌∷◌, pos, arith, ℤ,
}
use postie.Encoding.{null}
use postie.Delivery.Effects.{Error, canceled, failed, ok, err, Context, ctx_sleep}
use postie.Delivery.Backoff.{second}
use postie.Delivery.Worker.{process_raw}
use postie.Tests.Deliveries.{worker}
use postie.Kafka.{
  Offsets, Outside, PartitionWorker, Local, local, KafkaRecord, may_commit, commit, source_id,
  attempt,
}
use postie.Kafka.Baseline.{Attempted}
use postie.Kafka.Baseline.Attempts.{attempt-Attempted}
use postie.Kafka.Batches.{Routing, process, batch, run, resume}
use postie.Kafka.Batches.Commits.{Ran, run-Ran}
use postie.Kafka.Batches.Termination.{run_total}
use postie.Kafka.Ownership.{
  PartitionKey, Event, assigns, revokes, ends, selects, disowns, joins, returns, cancels,
  initializes, commit_begins, commit_ends, exits, callback, Consumer, new, ready,
}
use postie.Kafka.Ownership as Ownership
use postie.Kafka.Ownership.Exclusion.{IsExclusive, run-IsExclusive}

abbrev offsets : ℤ → Offsets
offsets at topic partition = some (record { at = at; failed = false })

abbrev outside : Outside ℕ
outside = record {
  fetch_offsets = λ group w. (w, ok (λ topic partition. none));
  list_start = λ topic w. (w, ok (offsets (pos 0)));
  list_end = λ topic w. (w, ok (offsets (pos 5)));
  commit_records = λ topic partition offset epoch w. (suc w, ok tt);
  partition_started = λ scope destination topic partition w. (w, ok false);
  mark_partition_started = λ scope destination topic partition w. (w, ok tt);
  owned = λ w. true;
  cancel = λ w. w;
}

abbrev live : Context ℕ
live = record { error = λ w. none; wait = λ delay w. (suc w, true) }

abbrev partition_worker : PartitionWorker ℕ
partition_worker = record {
  outside = outside;
  dispatch = record { allowed = λ id w. true; block = λ id reason w. w };
  context = live;
  scope = record { namespace = "postie"; environment = "test"; generation = pos 1 };
  destination = "mail";
  group = "postie.test.mail.g1";
  sources = [];
  topic = "postie.orders";
  partition = pos 0;
}

-- A history that starts at 3, and no offset.
abbrev late : PartitionWorker ℕ
late = record partition_worker {
  outside = record outside { list_start = λ topic w. (w, ok (offsets (pos 3))) };
}

abbrev kafka_record : KafkaRecord
kafka_record = record {
  topic = "postie.orders";
  partition = pos 0;
  offset = pos 3;
  leader_epoch = pos 1;
  key = none;
  value = some null;
}

fresh_attempt : attempt partition_worker (pos 0, 0) ≡ some ((pos 5, 1), ok tt)
unfolding attempt commit may_commit source_id
fresh_attempt = refl

late_attempt : attempt late (pos 0, 0) ≡ some ((pos 5, 0), err canceled)
unfolding attempt
late_attempt = refl

attempt-Attempted_example : Attempted late 0 (attempt late (pos 0, 0))
attempt-Attempted_example = attempt-Attempted late (pos 0, 0)

-- The only record cannot be decoded.
abbrev routing : Routing ℕ
routing = record {
  worker = record worker { decode = λ raw. err (failed "invalid") };
  fuel = 2;
  set_initialized = λ w. w;
  signal = λ w. w;
  receive = λ w. (w, some (kafka_record ∷ []));
  registered = λ w. true;
  resume_fetch = λ w. w;
  cancel_consumer = λ w. w;
}

run-Ran_example : Ran partition_worker routing (run partition_worker routing 2 0)
run-Ran_example = run-Ran partition_worker routing 2 0

no_measure : ℕ → ℕ
no_measure w = 0

routing_returns :
    (horizon : ℤ) (raw : KafkaRecord) (w : ℕ)
    → process partition_worker routing horizon raw w ≢ none
unfolding process process_raw
routing_returns horizon raw w = λ h. cc

routing_waits :
    (s s' : Local ℕ) (e : Error)
    → (local live).error s ≡ none
    → attempt partition_worker s ≡ some (s', err e)
    → (ctx_sleep (local live) second s').1 ≡ none
    → no_measure (ctx_sleep (local live) second s').0.1 < no_measure s.1
unfolding attempt commit may_commit source_id
routing_waits s s' e h k l = cc

routing_takes :
    (horizon : ℤ) (w w1 w2 : ℕ) (records : List KafkaRecord)
    → routing.receive w ≡ (w1, some records)
    → batch partition_worker routing horizon records w1 ≡ some (w2, ok tt)
    → no_measure (resume partition_worker routing w2) < no_measure w
unfolding batch process process_raw
routing_takes horizon w w1 w2 [] h k = cc
routing_takes horizon w w1 w2 (r ∷ records) h k = cc

run_total_example : run partition_worker routing 2 0 ≢ none
unfolding no_measure
run_total_example =
    run_total partition_worker routing no_measure routing_returns routing_waits routing_takes 2 0
      (λ w. omega arith)

abbrev key : PartitionKey
key = record { topic = "postie.orders"; partition = pos 0 }

-- A partition goes away while a commit is under way, and comes back.
abbrev moves : List Event
moves =
    assigns (key ∷ [])
    ∷ initializes 0
    ∷ commit_begins 0 true
    ∷ revokes (key ∷ [])
    ∷ selects callback
    ∷ commit_ends 0
    ∷ disowns callback
    ∷ exits 0
    ∷ joins callback
    ∷ returns callback
    ∷ assigns (key ∷ [])
    ∷ commit_begins 1 true
    ∷ []

-- The revocation waits for the commit.
disown_waits :
    Ownership.run
      (assigns (key ∷ [])
        ∷ commit_begins 0 true
        ∷ revokes (key ∷ [])
        ∷ selects callback
        ∷ disowns callback
        ∷ [])
      new
    ≡ none
unfolding Ownership.run Ownership.step Ownership.assign Ownership.is_registered
    Ownership.select_next Ownership.select Ownership.taken Ownership.disown_next
disown_waits = refl

abbrev after : Option Consumer → Consumer
after none = new
after (some c) = c

moves_run : Ownership.run moves new ≡ some (after (Ownership.run moves new))
unfolding Ownership.run Ownership.step Ownership.assign Ownership.is_registered
    Ownership.select_next Ownership.select Ownership.taken Ownership.disown_next Ownership.join_next
    Ownership.return_from
moves_run = refl

run-IsExclusive_example : IsExclusive (after (Ownership.run moves new))
run-IsExclusive_example = run-IsExclusive moves (after (Ownership.run moves new)) moves_run

moved_ready : ready (after (Ownership.run moves new)) ≡ false
unfolding ready Ownership.all_initialized Ownership.run Ownership.step Ownership.assign
    Ownership.is_registered Ownership.select_next Ownership.select Ownership.taken
    Ownership.disown_next Ownership.join_next Ownership.return_from
moved_ready = refl
