-- ===== src/Provision/Inspection.antt =====
-- internal/provision/inspect.go, and the names of contract.go.
pub mod Evidence
pub mod Findings
pub mod Verdicts
use Prim.Native.String
use postie.Prelude.{
  ℕ, zero, suc, ◌+◌, ◌/◌, ◌%◌, String, Bool, true, false, not, ◌||◌, Option, none, some, List, [],
  ◌∷◌, ◌==◌, if◌then◌else◌, ℤ, pos, negsuc, eqb_ℤ, eqb, ltb, lookup_or, bytes_eq, get_or,
}
use postie.Stream.{Identity, Names, Scope, Registration, Source}
use postie.Provision.{
  TableFacts, identity_differs, names_differ, topic_missing, topic_replaced, partitions_changed,
  slot_missing, slot_lost, connector_gone, Failure, contract, topic_metadata, connector_missing,
  replicas, failed, Result, ok, err, PublicationMode, managed, external, Status, SlotStatus,
  TopicFacts, Service,
}
use postie.Provision.Equality.{identity_eq, names_eq}
use postie.Provision.Contract.{
  is_contract, history_lost, is_running, tasks_running, has_tasks, identity_from,
}

-- `strconv.Itoa`, through the digits of a natural number.
digit : ℕ → String
digit d = get_or ("0" ∷ "1" ∷ "2" ∷ "3" ∷ "4" ∷ "5" ∷ "6" ∷ "7" ∷ "8" ∷ "9" ∷ []) d ""

digits : ℕ → ℕ → String → String
unfolding digit
digits zero n acc = acc
digits (suc fuel) n acc =
    let acc' = String.◌++◌ (digit (n % 10)) acc in
    let rest = digits fuel (n / 10) acc' in if ltb n 10 then acc' else rest

itoa : ℤ → String
unfolding digits
itoa (pos n) = digits (suc n) n ""
itoa (negsuc n) = String.◌++◌ "-" (digits (suc (suc n)) (suc n) "")

-- `NamesFor`
names_from : String → Source → Names
names_from prefix source = record {
  topic_prefix = prefix;
  topic = String.◌++◌ prefix (String.◌++◌ ".public." source.table);
  connector = String.◌++◌ prefix "_connector";
  slot = String.◌++◌ prefix "_slot";
  publication = String.◌++◌ prefix "_pub";
}

-- `finding`; `nothing` is the zero value.
pub data Finding : Type 0 where
  nothing : Finding
  blocked unavailable : String → Finding

unfoldable pub table_failure : Failure → Finding
unfolding is_contract
table_failure e =
    if is_contract e
    then blocked "source table violates capture contract"
    else unavailable "source database unavailable"

unfoldable pub inspect_names : Registration → Names → Finding
inspect_names registered names =
    if not (names_eq registered.names names)
    then blocked "stream configuration changed"
    else nothing

unfoldable pub topic_failure : Failure → String
topic_failure (topic_metadata true cause) = cause
topic_failure (topic_metadata false cause) = "Kafka topic unavailable"
topic_failure _ = "Kafka metadata unavailable"

-- The lowest mismatching partition.
unfoldable pub validate_replication : String → ℤ → List (ℤ × ℤ) → Option Failure
validate_replication topic want [] = none
validate_replication topic want ((partition, count) ∷ more) =
    if not (eqb_ℤ count want)
    then some (replicas topic partition count want)
    else validate_replication topic want more

unfoldable pub slot_finding : Result SlotStatus → Finding
slot_finding (err e) = unavailable "replication slot health unavailable"
slot_finding (ok slot) =
    if not slot.exists || history_lost slot
    then blocked "replication slot or WAL history lost"
    else nothing

unfoldable pub connector_finding : Result Status → Finding
connector_finding (err connector_missing) = blocked "established connector missing"
connector_finding (err _) = unavailable "capture connector unavailable"
connector_finding (ok status) =
    if status.failed || not (is_running status.connector) || not (has_tasks status.tasks)
    then unavailable "capture connector unavailable"
    else if not (tasks_running status.tasks)
    then unavailable "capture task unavailable"
    else nothing

module _ {W : Type 0} (s : Service W) where
  unfoldable pub names_for : Source → Names
  unfolding names_from itoa
  names_for source =
      let generation = itoa s.scope.generation in
      names_from
        (String.◌++◌ "postie_g" (
          String.◌++◌ generation (
            String.◌++◌ "_"
              (s.digest (s.scope.namespace ∷ s.scope.environment ∷ source.id ∷ generation ∷ [])))))
        source

  unfoldable pub capture_names : Source → Names × PublicationMode
  unfolding names_for
  capture_names source =
      let names = names_for source in
      let given = lookup_or source.id s.publications "" in
      if not (given == "")
      then (record names { publication = given }, external)
      else (names, managed)

  identity_finding : Registration → Result Identity → Finding
  unfolding table_failure
  identity_finding registered (err e) = table_failure e
  identity_finding registered (ok identity) =
      if not (identity_eq identity registered.identity)
      then blocked "stream identity changed"
      else nothing

  unfoldable pub facts_finding : Source → Registration → Result TableFacts → Finding
  unfolding identity_finding table_failure
  facts_finding source registered (err e) = table_failure e
  facts_finding source registered (ok facts) =
      identity_finding registered (identity_from source facts s.partitions)

  replicated_finding : Registration → TopicFacts → Option Failure → Finding
  replicated_finding registered details (some e) = unavailable (s.error_text e)
  replicated_finding registered details none =
      if not (bytes_eq details.id registered.topic_id)
        || not (eqb_ℤ details.partitions registered.identity.partitions)
      then blocked "topic identity changed"
      else nothing

  unfoldable pub topic_finding : Names → Registration → Result TopicFacts → Finding
  unfolding topic_failure replicated_finding validate_replication
  topic_finding names registered (err e) = unavailable (topic_failure e)
  topic_finding names registered (ok details) =
      if not details.exists
      then blocked "established topic missing"
      else replicated_finding registered details
          (validate_replication names.topic s.replication details.replicas)

  inspect_identity : Source → Registration → W → W × Finding
  unfolding facts_finding
  inspect_identity source registered w =
      let (w', facts) = s.inspect_table source.id w in (w', facts_finding source registered facts)

  inspect_topic : Names → Registration → W → W × Finding
  unfolding topic_finding
  inspect_topic names registered w =
      let (w', details) = s.topic names.topic w in (w', topic_finding names registered details)

  inspect_slot : Source → Names → W → W × Finding
  unfolding slot_finding
  inspect_slot source names w =
      let (w', slot) = s.slot_health source.id names.slot w in (w', slot_finding slot)

  inspect_connector : Names → W → W × Finding
  unfolding connector_finding
  inspect_connector names w =
      let (w', status) = s.connector_status names.connector w in (w', connector_finding status)

  -- The first finding wins, and the later checks do not run.
  or_next : (W → W × (String × String)) → W × Finding → W × (String × String)
  or_next next (w, nothing) = next w
  or_next next (w, blocked reason) = (w, ("blocked", reason))
  or_next next (w, unavailable reason) = (w, ("unavailable", reason))

  from_connector : Names → W → W × (String × String)
  unfolding inspect_connector or_next
  from_connector names w = or_next (λ w'. (w', ("running", ""))) (inspect_connector names w)

  from_slot : Source → Names → W → W × (String × String)
  unfolding inspect_slot or_next from_connector
  from_slot source names w = or_next (from_connector names) (inspect_slot source names w)

  from_topic : Source → Registration → Names → W → W × (String × String)
  unfolding inspect_topic or_next from_slot
  from_topic source registered names w =
      or_next (from_slot source names) (inspect_topic names registered w)

  from_names : Source → Registration → Names → W → W × (String × String)
  unfolding inspect_names or_next from_topic
  from_names source registered names w =
      or_next (from_topic source registered names) (w, inspect_names registered names)

  -- `InspectSource`
  unfoldable pub inspect_source : Source → Registration → W → W × (String × String)
  unfolding inspect_identity or_next from_names capture_names
  inspect_source source registered w =
      or_next (from_names source registered (capture_names source).0)
        (inspect_identity source registered w)
