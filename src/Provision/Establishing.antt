-- ===== src/Provision/Establishing.antt =====
-- `ProvisionSource` of internal/provision/service.go, with the validation of inspect.go. `none` is a
-- wait for the capture that ran out of fuel.
pub mod Checks
pub mod Origins
pub mod Outcomes
pub mod Termination
use Prim.Native.String
use postie.Prelude.{
  ℕ, zero, suc, String, Bool, true, false, not, ◌&&◌, ◌||◌, Option, none, some, List, ◌==◌,
  if◌then◌else◌, eqb_ℤ, bytes_eq, ℤ,
}
use postie.Stream.{Identity, Names, Registration, Source}
use postie.Provision.{
  TableFacts, identity_differs, names_differ, topic_missing, topic_replaced, partitions_changed,
  slot_missing, slot_lost, connector_gone, Failure, contract, topic_metadata, connector_missing,
  failed, Result, ok, err, PublicationMode, Status, SlotStatus, TopicFacts, Service,
}
use postie.Provision.Equality.{identity_eq, names_eq}
use postie.Provision.Contract.{is_contract, history_lost, capture_ready, identity_from}
use postie.Provision.Inspection.{validate_replication, capture_names}

abbrev pub Provisioned : Type 0 → Type 0
Provisioned W = Option (W × Result Registration)

-- A partition-level error names the broken partition, and is kept.
unfoldable pub topic_unread : Failure → Failure
topic_unread (topic_metadata true cause) = topic_metadata true cause
topic_unread _ = failed "topic inspection unavailable"

unfoldable pub slot_failure : Source → Result SlotStatus → Option Failure
slot_failure source (err e) = some (failed "slot inspection unavailable")
slot_failure source (ok slot) =
    if not slot.exists
    then some (contract source.table slot_missing)
    else if history_lost slot
    then some (contract source.table slot_lost)
    else none

unfoldable pub connector_failure : Source → Result Status → Option Failure
connector_failure source (err connector_missing) = some (contract source.table connector_gone)
connector_failure source (err _) = some (failed "connector is unavailable")
connector_failure source (ok status) =
    if status.failed then some (failed "connector is unavailable") else none

module _ {W : Type 0} (s : Service W) where
  details_failure : Source → Identity → Registration → TopicFacts → Option Failure → Option Failure
  details_failure source identity registered details (some e) = some e
  details_failure source identity registered details none =
      if not (bytes_eq details.id registered.topic_id)
      then some (contract source.table topic_replaced)
      else if not (eqb_ℤ details.partitions identity.partitions)
      then some (contract source.table partitions_changed)
      else none

  unfoldable pub topic_failed :
      Source → Identity → Names → Registration → Result TopicFacts → Option Failure
  unfolding details_failure topic_unread
  topic_failed source identity names registered (err e) = some (topic_unread e)
  topic_failed source identity names registered (ok details) =
      if not details.exists
      then some (contract source.table topic_missing)
      else details_failure source identity registered details
          (validate_replication names.topic s.replication details.replicas)

  validate_topic : Source → Identity → Names → Registration → W → W × Option Failure
  unfolding topic_failed
  validate_topic source identity names registered w =
      let (w', details) = s.topic names.topic w in
      (w', topic_failed source identity names registered details)

  validate_slot : Source → Names → W → W × Option Failure
  unfolding slot_failure
  validate_slot source names w =
      let (w', slot) = s.slot_health source.id names.slot w in (w', slot_failure source slot)

  validate_connector : Source → Names → W → W × Option Failure
  unfolding connector_failure
  validate_connector source names w =
      let (w', status) = s.connector_status names.connector w in
      (w', connector_failure source status)

  or_else : (W → W × Option Failure) → W × Option Failure → W × Option Failure
  or_else next (w, none) = next w
  or_else next (w, some e) = (w, some e)

  unfoldable pub validate_registered_stream :
      Source → Identity → Names → Registration → W → W × Option Failure
  unfolding or_else validate_topic validate_slot validate_connector
  validate_registered_stream source identity names registered w =
      if not (identity_eq registered.identity identity)
      then (w, some (contract source.table identity_differs))
      else if not (names_eq registered.names names)
      then (w, some (contract source.table names_differ))
      else or_else (λ w'. or_else (validate_connector source names) (validate_slot source names w'))
          (validate_topic source identity names registered w)

  block_outcome : String → Failure → W × Result (Unit {0}) → W × Result Registration
  block_outcome reason e (w, err x) =
      (w, err (failed (String.◌++◌ reason (String.◌++◌ "; block source: " (s.error_text x)))))
  block_outcome reason e (w, ok x) =
      (w, err (failed (String.◌++◌ "control: source blocked: " reason)))

  -- A contract violation blocks the source; anything else asks for another try.
  unverified : Source → Failure → W → W × Result Registration
  unfolding block_outcome
  unverified source e w =
      let reason = s.error_text e in
      if not (is_contract e)
      then (
        w,
        err (
            failed
              (String.◌++◌ "capture health could not be verified; retry provisioning: " reason)),
      )
      else block_outcome reason e (s.block_source s.scope source.id reason w)

  verified : Source → Registration → W × Option Failure → W × Result Registration
  unfolding unverified
  verified source registered (w, none) = (w, ok registered)
  verified source registered (w, some e) = unverified source e w

  unfoldable pub confirm_established :
      Source → Identity → Names → Registration → W → W × Result Registration
  unfolding verified validate_registered_stream
  confirm_established source identity names registered w =
      if not (registered.blocked == "")
      then (w, err (failed (String.◌++◌ "control: source is blocked: " registered.blocked)))
      else verified source registered
          (validate_registered_stream source identity names registered w)

  is_up : Result Status → Result SlotStatus → Bool
  is_up (ok status) (ok slot) = capture_ready status slot
  is_up _ _ = false

  after_capture_pause :
      (W → Option (W × Result (Unit {0}))) → W × Bool → Option (W × Result (Unit {0}))
  after_capture_pause again (w, true) = again w
  after_capture_pause again (w, false) =
      some (w, err (failed "capture did not become ready before provisioning timed out"))

  unfoldable pub await_capture : ℕ → Source → Names → W → Option (W × Result (Unit {0}))
  unfolding after_capture_pause is_up
  await_capture zero source names w = none
  await_capture (suc fuel) source names w =
      let (w1, status) = s.connector_status names.connector w in
      let (w2, slot) = s.slot_health source.id names.slot w1 in
      let paused = after_capture_pause (await_capture fuel source names) (s.pause w2) in
      if is_up status slot then some (w2, ok tt) else paused

  registered_outcome : Registration → W × Result (Unit {0}) → W × Result Registration
  registered_outcome registered (w, err e) = (w, err e)
  registered_outcome registered (w, ok x) = (w, ok registered)

  after_await : Source → Identity → Names → List ℕ → Option (W × Result (Unit {0})) → Provisioned W
  unfolding registered_outcome
  after_await source identity names topic_id none = none
  after_await source identity names topic_id (some (w, err e)) = some (w, err e)
  after_await source identity names topic_id (some (w, ok x)) =
      let registered : Registration = record {
        source_id = source.id;
        identity = identity;
        names = names;
        topic_id = topic_id;
        blocked = "";
      } in
      some (registered_outcome registered (s.register_stream s.scope registered w))

  after_connector : ℕ → Source → Identity → Names → List ℕ → W × Result (Unit {0}) → Provisioned W
  unfolding after_await await_capture
  after_connector fuel source identity names topic_id (w, err e) = some (w, err e)
  after_connector fuel source identity names topic_id (w, ok x) =
      after_await source identity names topic_id (await_capture fuel source names w)

  pub after_topic :
      ℕ → Source → Identity → Names → PublicationMode → W × Result (List ℕ) → Provisioned W
  unfolding after_connector
  after_topic fuel source identity names publication (w, err e) = some (w, err e)
  after_topic fuel source identity names publication (w, ok topic_id) =
      after_connector fuel source identity names topic_id
        (s.ensure_connector source identity names publication w)

  unfoldable pub establish : ℕ → Source → Identity → Names → PublicationMode → W → Provisioned W
  unfolding after_topic
  establish fuel source identity names publication w =
      after_topic fuel source identity names publication
        (s.ensure_topic names identity.partitions s.replication w)

  after_lookup : ℕ → Source → Identity → W × Result (Option Registration) → Provisioned W
  unfolding establish confirm_established
  after_lookup fuel source identity (w, err e) = some (w, err e)
  after_lookup fuel source identity (w, ok none) =
      let (names, publication) = capture_names s source in
      establish fuel source identity names publication w
  after_lookup fuel source identity (w, ok (some registered)) =
      some (confirm_established source identity (capture_names s source).0 registered w)

  after_identity : ℕ → Source → W → Result Identity → Provisioned W
  unfolding after_lookup
  after_identity fuel source w (err e) = some (w, err e)
  after_identity fuel source w (ok identity) =
      after_lookup fuel source identity (s.get_stream s.scope source.id w)

  after_table : ℕ → Source → W × Result TableFacts → Provisioned W
  unfolding after_identity
  after_table fuel source (w, err e) = some (w, err e)
  after_table fuel source (w, ok facts) =
      after_identity fuel source w (identity_from source facts s.partitions)

  unfoldable pub provision_source : ℕ → Source → W → Provisioned W
  unfolding after_table
  provision_source fuel source w = after_table fuel source (s.inspect_table source.id w)
