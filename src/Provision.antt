-- ===== src/Provision.antt =====
-- The types of internal/provision (contract.go, service.go, inspect.go) and what the package calls.
pub mod Equality
pub mod Contract
pub mod Inspection
pub mod Establishing
use postie.Prelude.{ℕ, String, Bool, Option, List, ℤ, Dict}
use postie.Stream.{PgType, Identity, Names, Scope, Registration, Source}

pub record ColumnFacts : Type 0 where
  pub type : PgType
  pub not_null : Bool

pub record TableFacts : Type 0 where
  pub exists : Bool
  pub columns : Dict ColumnFacts
  pub serial_unique_index : Bool

-- The reason of a `ContractError`: its format, with the arguments.
pub data Reason : Type 0 where
  does_not_exist : Reason
  missing_columns : List String → Reason
  unsupported_column : String → PgType → Reason
  serial_not_found serial_nullable serial_not_unique : String → Reason
  serial_not_integer : String → PgType → Reason
  partitioning_not_found partitioning_nullable : String → Reason
  identity_differs names_differ topic_missing topic_replaced partitions_changed : Reason
  slot_missing slot_lost connector_gone : Reason

-- An error, by what `errors.As` and `errors.Is` find in it: a `ContractError`, a
-- `TopicMetadataError`, `ErrConnectorMissing`, or none of these.
pub data Failure : Type 0 where
  contract : String → Reason → Failure
  topic_metadata : Bool → String → Failure
  connector_missing : Failure
  replicas : String → ℤ → ℤ → ℤ → Failure
  failed : String → Failure

pub data Result {ℓ} (A : Type ℓ) : Type ℓ where
  ok : A → Result A
  err : Failure → Result A

pub data PublicationMode : Type 0 where
  managed external : PublicationMode

pub data ConnectorState : Type 0 where
  running failed paused unassigned restarting : ConnectorState
  other : String → ConnectorState

pub record Status : Type 0 where
  pub connector : ConnectorState
  pub tasks : List ConnectorState
  pub failed : Bool
  pub trace : String

pub data WalStatus : Type 0 where
  reserved extended unreserved lost : WalStatus
  other : String → WalStatus

pub record SlotStatus : Type 0 where
  pub exists : Bool
  pub wal_status : WalStatus

-- The replica counts are sorted by partition, as `validateReplication` reads them.
pub record TopicFacts : Type 0 where
  pub exists : Bool
  pub id : List ℕ
  pub partitions : ℤ
  pub replicas : List (ℤ × ℤ)

-- `Service`: its settings, and the calls of its interfaces. `error_text` is `Error()`; `digest` is the
-- hexadecimal text of the first 14 bytes of the SHA-256 of a JSON array of texts; `pause` is the
-- `select` of `awaitCapture`, and says whether the timer's arm was taken.
pub record Service (W : Type 0) : Type 0 where
  pub scope : Scope
  pub partitions : ℤ  -- int32
  pub replication : ℤ  -- int16
  pub publications : Dict String
  pub error_text : Failure → String
  pub digest : List String → String
  pub inspect_table : String → W → W × Result TableFacts
  pub slot_health : String → String → W → W × Result SlotStatus
  pub ensure_topic : Names → ℤ → ℤ → W → W × Result (List ℕ)
  pub topic : String → W → W × Result TopicFacts
  pub ensure_connector : Source → Identity → Names → PublicationMode → W → W × Result (Unit {0})
  pub connector_status : String → W → W × Result Status
  pub get_stream : Scope → String → W → W × Result (Option Registration)
  pub register_stream : Scope → Registration → W → W × Result (Unit {0})
  pub block_source : Scope → String → String → W → W × Result (Unit {0})
  pub pause : W → W × Bool
