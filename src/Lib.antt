-- ===== src/Lib.antt =====
-- Postie delivers change events of PostgreSQL tables from Kafka to HTTP destinations. This library
-- models how a consumer owns partitions and where it starts, what a record goes through from Kafka to
-- its commit, what the control loop does with sources and subscriptions and what the control store
-- remembers of them, how a stream is provisioned and inspected, the validation of the configuration,
-- and the activity log.
--
-- Files and code (Go, paths from the root of the repository):
--   Prelude        shared names: Booleans, lists, maps, integers, the two functions of strconv that
--                  the log uses. Maps are association lists, numbers the native ones.
--   Stream         internal/stream/stream.go: the types that the packages share.
--   Encoding       JSON values as encoding/json reads them; a raw message is a value or unreadable.
--                  Scanner is `json.Valid`, Marshal the marshalling of a map.
--   Activity       internal/activity/log.go. `add`, `read`, `parse_cursor` are `Add`, `Read`,
--                  `parseCursor`. History is the log as the list of all its entries, Paging what a
--                  reader gets page by page.
--   Protocol       internal/protocol/protocol.go: `matches_filter` and `decode_acknowledgement`
--                  (Filtering, Answers; Numbers says which numbers `isSuccess` can hold). Values is `ConvertValue` of payload.go (Meaning says what it asks
--                  of a value), Decimal its `expandDecimal` (Exactness reads the text back, Signs adds
--                  the sign; Literals, Exponents and Readings are about the literal), Times what it
--                  takes of package time (Digits and Text read the text of an instant back).
--   Debezium       internal/adapters/debezium/decode.go: `Decode`. Coherence is about the identity,
--                  Envelope about the envelope and the key, Rows about the columns, Fidelity about the
--                  whole record.
--   Delivery       internal/delivery. Effects holds the monad, Retry is `Retry`, Backoff `backoff`,
--                  Processor `Processor.Process`, Worker `Worker.Process` and `completeRecord`. The
--                  broker, the store, the destination, the timer and the log are calls that take a
--                  world to the next one.
--   Kafka          internal/adapters/kafka/consumer.go. Baseline is `initialize`, Batches the worker's `run`
--                  with the worker of internal/delivery, Polling the loop of `Run`, Ownership the
--                  callbacks, `stopWorkers` and the workers as steps of one consumer. Topics is
--                  internal/adapters/kafka/admin.go: `EnsureTopic` and `Topic`.
--   ControlStore   internal/adapters/controlpg: the tables of the control store as rows, Streams,
--                  Subscriptions and Leases its statements, Calls any sequence of them; Growth is about
--                  what is remembered, Observation about `SubscriptionObserved`.
--   Control        internal/control. The types and state.go are in Control; Outside lists the calls
--                  that leave the package; Sources has `inspectSource`, `Block` and `Allowed`,
--                  Subscriptions `reconcileSubscription` (Readiness, Reached), Reconcile one whole pass
--                  (Stops is about `stopAll`, Status about `overallStatus`, Ways the ends of a pass), Running
--                  `Start`, Convergence `New` and `Change`.
--   Provision      internal/provision. Contract has `IdentityFrom` and its rules, Inspection
--                  `NamesFor` and `InspectSource`, Establishing `ProvisionSource` (Checks); Equality has the
--                  comparisons of identities and names.
--   Config         internal/config/validate.go: `Application.Validate` (Sources, Destinations,
--                  Validity) and `Engine.Validate` (Defaults).
--   Sending        internal/adapters/httpdelivery/client.go: one attempt over HTTP; Processing puts it
--                  under `Process`.
--   Monitoring     the control loop over `InspectSource`, as internal/app/app.go wires it.
--   Wiring         the source that internal/app/bootstrap.go makes of a configured source. Workers has
--                  the workers that internal/app/app.go builds for the consumer of a destination,
--                  Delivered what a record goes through in them.
--   Tests          runs at concrete inputs.
--
-- How the parts meet: `Change` writes the desired state to the store; a pass of the control loop reads
-- it, inspects the sources and moves every subscription, starting and stopping consumers; a consumer
-- runs a worker for each record, which asks the fence `Allowed` first, and raises `Block` for a
-- record that cannot be decoded. All of them add to the log.
--
-- Locks: a critical section is one step. What other goroutines do between two steps is written out
-- where it shows: a block that a worker raises while the store or the monitor is asked is `meanwhile`,
-- and the control loop may leave any state behind while `Change` waits.
--
-- The consumer's goroutines are the exception: there each critical section, each start and end of a
-- commit and each wait of `stopWorkers` is an event, and the events come in any order that the locks,
-- the waits and the serial callbacks of the client allow.
--
-- Fuel: the loops of `Retry`, `Process`, `Start`, `awaitConvergence`, `awaitCapture`, `EnsureTopic`, and of a consumer and its workers have no bound in
-- the code; they end by a success or by the context. They run on fuel, and a measure of the world
-- that falls with every round, such as the time that is left until a deadline, says how much is
-- enough.
--
-- Bounds: the sequence of the log is an uint64 and wraps. Durations are nanoseconds; those of the
-- delivery stay below 64 s, so int64 does not wrap.
--
-- Parameters: what is asked of Kafka, PostgreSQL, Kafka Connect and the destination, the clock, the
-- timers, random numbers, the texts of errors and the SHA-256 behind the names of a stream, and
-- the JSON of an identity in the control store.
--
-- Not modelled: cmd/postie and the rest of internal/app (wiring), the other files of
-- internal/adapters (source databases, Kafka Connect, and the operator's HTTP server), the clients of
-- Kafka, the connection of the control store, the headers of a request, the loading of files
-- in internal/config, and the sorted snapshots of internal/control/service.go.
pub mod Prelude
pub mod Stream
pub mod Encoding
pub mod Activity
pub mod Protocol
pub mod Delivery
pub mod Control
pub mod Provision
pub mod Config
pub mod Sending
pub mod Monitoring
pub mod Wiring
pub mod Debezium
pub mod Kafka
pub mod ControlStore
pub mod Tests
