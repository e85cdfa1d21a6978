-- ===== src/Provision/Contract.antt =====
-- The rules of internal/provision/contract.go.
pub mod Eligibility
use Prim.Native.String
use postie.Prelude.{
  ℕ, zero, suc, ◌/◌, ◌%◌, String, Bool, true, false, not, ◌&&◌, ◌||◌, Option, none, some, List, [],
  ◌∷◌, ◌++◌, if◌then◌else◌, ℤ, pos, negsuc, Dict, lookup, ltb, contains, lookup_or, ◌+◌,
}
use postie.Stream.{PgType, supported, integer, Column, Identity, Names, Source}
use postie.Provision.{
  ColumnFacts, TableFacts, Reason, does_not_exist, missing_columns, unsupported_column,
  serial_not_found, serial_nullable, serial_not_unique, serial_not_integer, partitioning_not_found,
  partitioning_nullable, Failure, contract, Result, ok, err, PublicationMode, managed, external,
  ConnectorState, running, Status, WalStatus, unreserved, lost, SlotStatus, Service,
}

unfoldable pub is_contract : Failure → Bool
is_contract (contract table reason) = true
is_contract _ = false

unfoldable pub is_lost : WalStatus → Bool
is_lost lost = true
is_lost unreserved = true
is_lost _ = false

unfoldable pub history_lost : SlotStatus → Bool
unfolding is_lost
history_lost slot = is_lost slot.wal_status

unfoldable pub is_running : ConnectorState → Bool
is_running running = true
is_running _ = false

unfoldable pub tasks_running : List ConnectorState → Bool
unfolding is_running
tasks_running [] = true
tasks_running (t ∷ ts) = is_running t && tasks_running ts

unfoldable pub has_tasks : List ConnectorState → Bool
has_tasks [] = false
has_tasks (t ∷ ts) = true

unfoldable pub capture_ready : Status → SlotStatus → Bool
unfolding is_running has_tasks tasks_running history_lost
capture_ready status slot =
    is_running status.connector
    && has_tasks status.tasks
    && not status.failed
    && tasks_running status.tasks
    && slot.exists
    && not (history_lost slot)

abbrev pub event_id_column_name : String
event_id_column_name = "event_id"

unfoldable pub event_id_column : List String → String
event_id_column columns = if contains columns event_id_column_name then event_id_column_name else ""

-- The end of the loop: the columns so far, unless some are missing.
collected : String → List String → List Column → Result (List Column)
collected table [] columns = ok columns
collected table (name ∷ missing) columns = err (contract table (missing_columns (name ∷ missing)))

-- One round of the loop of `configuredColumns`; `again` is the rest of it, with the missing names and
-- the columns so far.
visit :
    String
    → String
    → Option ColumnFacts
    → (List String → List Column → Result (List Column))
    → List String
    → List Column
    → Result (List Column)
visit table name none again missing columns = again (missing ++ name ∷ []) columns
visit table name (some c) again missing columns =
    if not (supported c.type)
    then err (contract table (unsupported_column name c.type))
    else again missing (columns ++ record { name = name; type = c.type } ∷ [])

columns_from :
    String → Dict ColumnFacts → List String → List String → List Column → Result (List Column)
unfolding visit collected
columns_from table facts [] missing columns = collected table missing columns
columns_from table facts (name ∷ names) missing columns =
    visit table name (lookup name facts) (columns_from table facts names) missing columns

unfoldable pub configured_columns : Source → TableFacts → Result (List Column)
unfolding columns_from
configured_columns src facts = columns_from src.table facts.columns src.columns [] []

check_serial : Source → TableFacts → Option ColumnFacts → Option Failure
check_serial src facts none = some (contract src.table (serial_not_found src.serial_column))
check_serial src facts (some serial) =
    if not (integer serial.type)
    then some (contract src.table (serial_not_integer src.serial_column serial.type))
    else if not serial.not_null
    then some (contract src.table (serial_nullable src.serial_column))
    else if not facts.serial_unique_index
    then some (contract src.table (serial_not_unique src.serial_column))
    else none

unfoldable pub check_serial_column : Source → TableFacts → Option Failure
unfolding check_serial
check_serial_column src facts = check_serial src facts (lookup src.serial_column facts.columns)

check_partitioning : Source → Option ColumnFacts → Option Failure
check_partitioning src none =
    some (contract src.table (partitioning_not_found src.partitioning_column))
check_partitioning src (some partitioning) =
    if not partitioning.not_null
    then some (contract src.table (partitioning_nullable src.partitioning_column))
    else none

unfoldable pub check_partitioning_column : Source → TableFacts → Option Failure
unfolding check_partitioning
check_partitioning_column src facts =
    check_partitioning src (lookup src.partitioning_column facts.columns)

-- The identity behind the checks, the first failure first.
frozen : Source → ℤ → List Column → Option Failure → Option Failure → Result Identity
unfolding event_id_column
frozen src partitions columns (some e) partitioning = err e
frozen src partitions columns none (some e) = err e
frozen src partitions columns none none = ok (record {
  table = src.table;
  serial_column = src.serial_column;
  partitioning_column = src.partitioning_column;
  event_id_column = event_id_column src.columns;
  partitions = partitions;
  columns = columns;
})

with_columns : Source → TableFacts → ℤ → Result (List Column) → Result Identity
unfolding frozen
with_columns src facts partitions (err e) = err e
with_columns src facts partitions (ok columns) =
    frozen src partitions columns (check_serial_column src facts)
      (check_partitioning_column src facts)

-- `IdentityFrom`
unfoldable pub identity_from : Source → TableFacts → ℤ → Result Identity
unfolding with_columns
identity_from src facts partitions =
    if not facts.exists
    then err (contract src.table does_not_exist)
    else with_columns src facts partitions (configured_columns src facts)
