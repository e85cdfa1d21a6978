-- ===== src/Debezium.antt =====
-- internal/adapters/debezium/decode.go: what becomes of a raw record of the capture connector. An error
-- is the place that refuses; a text that is empty and one that is no JSON object are one case.
pub mod Coherence
pub mod Rows
pub mod Objects
pub mod Envelope
pub mod Fidelity
use postie.Prelude.{
  String, Bool, true, false, not, ◌&&◌, ◌||◌, Option, none, some, List, [], ◌∷◌, ◌==◌,
  if◌then◌else◌, is_some, eqb, bytes_eq, contains, length, Dict, lookup, insert, ℤ, pos, ltb_ℤ,
}
use postie.Prelude.Tries.{Try, ok, err, ◌>>=◌, ◌>>◌, fail_if, or_fail}
use postie.Encoding.{Json, null, bool, num, str, obj, Members, decode_string}
use postie.Encoding.Marshal.{marshal_map}
use postie.Stream
use postie.Stream.{Source, Identity, Column, Record, RawRecord, valid, supported, integer}
use postie.Protocol.{add_members}
use postie.Protocol.Values.{ValueError, convert_value}

pub data Failure : Type 0 where
  record_is_nil generation_invalid table_differs columns_differ partitions_invalid : Failure
  columns_invalid column_missing : Failure
  column_unsupported serial_invalid : String → Failure
  not_an_object : String → Failure
  field_missing field_not_a_string : String → String → Failure
  operation_unsupported source_missing schema_not_public source_table_differs after_missing :
      Failure
  key_not_single key_missing after_key_null key_differs : Failure
  configured_missing required_null event_id_null event_id_empty event_id_not_a_string :
      String → Failure
  value_invalid : String → ValueError → Failure

abbrev pub Checked {ℓ} : Type ℓ → Type ℓ
Checked A = Try Failure A

unfoldable pub is_null : Json → Bool
is_null null = true
is_null _ = false

-- `isNull(m[k])`, also for a missing key.
unfoldable pub present : Option Json → Option Json
present none = none
present (some null) = none
present (some v) = some v

unfoldable pub decode_object : String → Option Json → Checked (Dict Json)
unfolding add_members
decode_object name (some (obj members)) = ok (add_members [] members)
decode_object name _ = err (not_an_object name)

unfoldable pub string_field : Dict Json → String → String → Checked String
string_field object name context = do
  raw ← or_fail (lookup name object) (field_missing context name)
  or_fail (decode_string raw) (field_not_a_string context name)

unfoldable pub check_column : Identity → List String → String → Column → Checked (Unit {0})
check_column identity seen configured column = do
  fail_if (column.name == "" || contains seen column.name || not (configured == column.name))
      columns_invalid
  fail_if (not (supported column.type)) (column_unsupported column.name)
  fail_if (column.name == identity.serial_column && not (integer column.type))
      (serial_invalid column.name)

-- The loop over the identity's columns beside the configured ones; the result is `seen`.
unfoldable pub check_columns :
    Identity → List String → List String → List Column → Checked (List String)
check_columns identity seen configured [] = ok seen
check_columns identity seen [] (column ∷ columns) = err columns_invalid
check_columns identity seen (name ∷ names) (column ∷ columns) =
    check_column identity seen name column
    >> check_columns identity (column.name ∷ seen) names columns

unfoldable pub validate_identity : Source → Identity → ℤ → Checked (Unit {0})
validate_identity source identity generation = do
  fail_if (not (valid generation)) generation_invalid
  fail_if (source.table == "" || identity.table == "" || not (identity.table == source.table))
      table_differs
  fail_if
      (identity.serial_column == ""
        || identity.partitioning_column == ""
        || not (identity.serial_column == source.serial_column)
        || not (identity.partitioning_column == source.partitioning_column))
      columns_differ
  fail_if (ltb_ℤ identity.partitions (pos 1)) partitions_invalid
  fail_if
      (eqb (length source.columns) 0 || not (eqb (length identity.columns) (length source.columns)))
      columns_differ
  seen ← check_columns identity [] source.columns identity.columns
  fail_if
      (not (contains seen identity.serial_column)
        || not (contains seen identity.partitioning_column)
        || not (identity.event_id_column == "" || contains seen identity.event_id_column))
      column_missing

unfoldable pub validate_source : Dict Json → Source → Checked (Unit {0})
validate_source envelope source = do
  raw ← or_fail (lookup "source" envelope) source_missing
  metadata ← decode_object "source metadata" (some raw)
  schema ← string_field metadata "schema" "source metadata"
  table ← string_field metadata "table" "source metadata"
  fail_if (not (schema == "public")) schema_not_public
  fail_if (not (table == source.table)) source_table_differs

-- `bytes.Equal` of two compacted values that `ConvertValue` has taken, which are no object or array.
unfoldable pub same_text : Json → Json → Bool
same_text null null = true
same_text (bool true) (bool true) = true
same_text (bool false) (bool false) = true
same_text (num a) (num b) = bytes_eq a b
same_text (str a s) (str b t) = bytes_eq a b
same_text _ _ = false

lift_error : String → Try ValueError Json → Checked Json
lift_error column (ok v) = ok v
lift_error column (err e) = err (value_invalid column e)

-- The loop that ends at the first column of this name.
unfoldable pub check_key_value : String → Json → List Column → Checked (Unit {0})
unfolding lift_error
check_key_value name value [] = ok tt
check_key_value name value (column ∷ columns) =
    let rest = check_key_value name value columns in
    let found = lift_error column.name (convert_value column.type value) >>= λ _. ok tt in
    if column.name == name then found else rest

unfoldable pub validate_key : Option Json → Dict Json → Identity → Checked (Unit {0})
validate_key raw after identity = do
  key ← decode_object "Kafka key" raw
  fail_if (not (eqb (length key) 1)) key_not_single
  key_value ← or_fail (present (lookup identity.partitioning_column key)) key_missing
  after_value ← or_fail (present (lookup identity.partitioning_column after)) after_key_null
  check_key_value identity.partitioning_column key_value identity.columns
  fail_if (not (same_text key_value after_value)) key_differs

unfoldable pub after_object : RawRecord → Source → Identity → Checked (Dict Json)
after_object raw source identity = do
  envelope ← decode_object "envelope" raw.value
  op ← string_field envelope "op" "envelope"
  fail_if (not (op == "c") && not (op == "r")) operation_unsupported
  validate_source envelope source
  image ← or_fail (present (lookup "after" envelope)) after_missing
  after ← decode_object "after" (some image)
  validate_key raw.key after identity
  ok after

unfoldable pub configured_value : Dict Json → Column → Identity → Checked Json
unfolding lift_error
configured_value after column identity = do
  raw ← or_fail (lookup column.name after) (configured_missing column.name)
  fail_if
      (is_null raw
        && (column.name == identity.serial_column || column.name == identity.partitioning_column))
      (required_null column.name)
  lift_error column.name (convert_value column.type raw)

unfoldable pub event_id_from : Json → String → Checked String
event_id_from raw column = do
  fail_if (is_null raw) (event_id_null column)
  id ← or_fail (decode_string raw) (event_id_not_a_string column)
  fail_if (id == "") (event_id_empty column)
  ok id

-- The event id of a row, where this column holds it.
event_id_of : Dict Json → Column → Identity → String → Checked String
event_id_of after column identity sofar =
    if column.name == identity.event_id_column
    then or_fail (lookup column.name after) (configured_missing column.name)
      >>= (λ raw. event_id_from raw column.name)
    else ok sofar

-- The loop of `configuredValues`: the values and the event id so far.
unfoldable pub convert_columns :
    Dict Json → Identity → List Column → Dict Json → String → Checked (Dict Json × String)
unfolding event_id_of
convert_columns after identity [] values event_id = ok (values, event_id)
convert_columns after identity (column ∷ columns) values event_id = do
  converted ← configured_value after column identity
  id ← event_id_of after column identity event_id
  convert_columns after identity columns (insert column.name converted values) id

unfoldable pub configured_values : Dict Json → Identity → Checked (Dict Json × String)
unfolding convert_columns
configured_values after identity = convert_columns after identity identity.columns [] ""

text_or_empty : Option Json → String
text_or_empty (some (str literal s)) = s
text_or_empty _ = ""

unfoldable pub optional_string : Dict Json → String → String
unfolding text_or_empty
optional_string values column = text_or_empty (lookup column values)

-- The record that `Decode` returns.
unfoldable pub decoded_record : Source → ℤ → RawRecord → Dict Json → String → Record
decoded_record source generation raw values event_id = record {
  source = source;
  payload = some (obj (marshal_map values));
  topic = raw.topic;
  partition = raw.partition;
  offset = raw.offset;
  event_id = event_id;
  aggregate_id = optional_string values "aggregate_id";
  event_name = optional_string values "event_name";
  generation = generation;
  replay = false;
}

-- `Decode`
unfoldable pub decode : Source → Identity → ℤ → Option RawRecord → Checked Record
unfolding decoded_record
decode source identity generation record_or_nil = do
  raw ← or_fail record_or_nil record_is_nil
  validate_identity source identity generation
  after ← after_object raw source identity
  (values, event_id) ← configured_values after identity
  ok (decoded_record source generation raw values event_id)
