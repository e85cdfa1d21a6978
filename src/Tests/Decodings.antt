-- ===== src/Tests/Decodings.antt =====
-- A change event of a table of orders, decoded.
use postie.Prelude.{◌≡◌, ◌⊎◌, refl, false, some, [], ◌∷◌, pos, insert, cut, String}
use postie.Prelude.Tries.{ok, err}
use postie.Encoding.{Json, null, num, obj, end, member, plain, decode_string}
use postie.Encoding.Marshal.{marshal_map, marshalled, escape_html, place}
use postie.Stream.{
  Source, Identity, RawRecord, Record, int8, float8, text, timestamp, supported, integer,
}
use postie.Protocol.{add_members}
use postie.Protocol.Decimal.{parse_decimal, to_string, atoi, digits_value}
use postie.Protocol.Times.{unix_micro, format_timestamp}
use postie.Protocol.Values.{
  convert_value, parse_int, overflows, float_literal, integer_literal, timestamp_from_micros,
}
use postie.Protocol.Values.Meaning.{Converts}
use postie.Protocol.Values.Exactness.{convert_value-Converts}
use postie.Debezium.{
  decode, decoded_record, key_differs, operation_unsupported, configured_values, string_field,
  decode_object, validate_identity, validate_key, validate_source, after_object, check_columns,
  check_column, check_key_value, configured_value, present, same_text, convert_columns,
  event_id_from, optional_string, is_null,
}
use postie.Debezium.Fidelity.{IsDecoded, decode-IsDecoded}

unfoldable pub methods : Unit {0}
unfolding decode validate_identity check_columns check_column supported integer after_object
    decode_object string_field insert decode_string validate_source present validate_key
    check_key_value convert_value same_text configured_values configured_value convert_columns
    decoded_record event_id_from is_null optional_string escape_html marshal_map marshalled place
    atoi digits_value parse_decimal to_string cut format_timestamp unix_micro float_literal
    integer_literal overflows parse_int timestamp_from_micros add_members
methods = tt

abbrev pub orders : Source
orders = record {
  id = "orders";
  description = "Orders";
  table = "orders";
  columns = "id" ∷ "tenant" ∷ "total" ∷ "at" ∷ [];
  serial_column = "id";
  partitioning_column = "tenant";
}

abbrev pub identity : Identity
identity = record {
  table = "orders";
  serial_column = "id";
  partitioning_column = "tenant";
  event_id_column = "";
  partitions = pos 6;
  columns =
      record { name = "id"; type = int8 }
      ∷ record { name = "tenant"; type = text }
      ∷ record { name = "total"; type = float8 }
      ∷ record { name = "at"; type = timestamp }
      ∷ [];
}

abbrev pub raw_of : String → String → RawRecord
raw_of op tenant = record {
  topic = "postie.public.orders";
  partition = pos 3;
  offset = pos 41;
  leader_epoch = pos 1;
  key = some (obj (member "tenant" (plain "acme") end));
  value = some (
      obj (
        member "op" (plain op) (
          member "source"
            (obj (member "schema" (plain "public") (member "table" (plain "orders") end)))
            (member "after"
              (obj (
                member "id" (num (b'4' ∷ b'2' ∷ [])) (
                  member "tenant" (plain tenant) (
                    member "total" (num (b'1' ∷ b'.' ∷ b'5' ∷ b'e' ∷ b'3' ∷ [])) (
                      member "at" (num (b'1' ∷ b'0' ∷ b'0' ∷ b'0' ∷ b'0' ∷ b'0' ∷ b'0' ∷ []))
                        (member "note" null end))))))
              end))));
  historical = false;
}

abbrev pub decoded : Record
decoded = record {
  source = orders;
  payload = some (
      obj (
        member "at" (plain "1970-01-01 00:00:01") (
          member "id" (num (b'4' ∷ b'2' ∷ [])) (
            member "tenant" (plain "acme")
              (member "total" (num (b'1' ∷ b'5' ∷ b'0' ∷ b'0' ∷ [])) end)))));
  topic = "postie.public.orders";
  partition = pos 3;
  offset = pos 41;
  event_id = "";
  aggregate_id = "";
  event_name = "";
  generation = pos 1;
  replay = false;
}

inserted : decode orders identity (pos 1) (some (raw_of "c" "acme")) ≡ ok decoded
unfolding methods
inserted = refl

-- An update is refused, and so is a key that is not the row's.
refused :
    (decode orders identity (pos 1) (some (raw_of "u" "acme")) ≡ err operation_unsupported)
    × (decode orders identity (pos 1) (some (raw_of "c" "other")) ≡ err key_differs)
unfolding methods
refused = (refl, refl)

decode-IsDecoded_example : IsDecoded orders identity (pos 1) (raw_of "c" "acme") decoded
decode-IsDecoded_example =
    decode-IsDecoded orders identity (pos 1) (raw_of "c" "acme") decoded inserted

-- A float that is written out.
convert_value-Converts_example :
    (Json.num (b'1' ∷ b'e' ∷ b'2' ∷ []) ≡ null) × (num (b'1' ∷ b'0' ∷ b'0' ∷ []) ≡ null)
    ⊎ Converts float8 (num (b'1' ∷ b'e' ∷ b'2' ∷ [])) (num (b'1' ∷ b'0' ∷ b'0' ∷ []))
unfolding methods
convert_value-Converts_example =
    convert_value-Converts float8 (num (b'1' ∷ b'e' ∷ b'2' ∷ [])) (num (b'1' ∷ b'0' ∷ b'0' ∷ []))
      refl
