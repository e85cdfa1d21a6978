-- ===== src/Protocol/Values.antt =====
-- `ConvertValue` of internal/protocol/payload.go. A raw value is a JSON value: its callers hand over
-- members of an object that was decoded. An error says what is wrong; its text, which names the
-- field, is left out.
pub mod Meaning
pub mod Exactness
use postie.Prelude.{
  ℕ, ◌+◌, ◌-◌, ◌*◌, ◌^◌, String, Bool, true, false, ◌&&◌, ◌||◌, Option, none, some, [], ◌∷◌,
  if◌then◌else◌, ltb, leb, eqb, ℤ, pos, negsuc, Bytes, length,
}
use postie.Prelude.Tries.{Try, ok, err}
use postie.Encoding.{Json, null, bool, num, codes, plain, decode_string}
use postie.Encoding.Scanner.{valid_json}
use postie.Stream.{
  PgType, int2, int4, int8, float4, float8, json, bytea, timestamp, timestamptz, text, other,
}
use postie.Protocol.Decimal.{Decimal, digits_value, atoi, parse_decimal, to_string}
use postie.Protocol.Times.{unix_micro, format_timestamp, parse_rfc3339}

pub data ValueError : Type 0 where
  not_valid : String → ValueError
  not_json_text not_a_string not_base64 not_micros not_rfc3339 unsupported_type : ValueError

in_bits : ℕ → ℤ → Bool
in_bits bits (pos n) = ltb n (2 ^ (bits - 1))
in_bits bits (negsuc n) = ltb n (2 ^ (bits - 1))

-- `strconv.ParseInt(s, 10, bits)`, on the literal of a number.
unfoldable pub parse_int : ℕ → Bytes → Option ℤ
unfolding atoi in_bits
parse_int bits literal = elim (atoi literal) [
  | none ↦ none
  | some n ↦ if in_bits bits n then some n else none
]

unfoldable pub integer_literal : String → ℕ → Json → Try ValueError Json
integer_literal name bits (num literal) = elim (parse_int bits literal) [
  | none ↦ err (not_valid name)
  | some n ↦ ok (num literal)
]
integer_literal name bits _ = err (not_valid name)

-- The least magnitude that `strconv.ParseFloat` rounds beyond the largest float of this width.
unfoldable pub overflow : ℕ → ℕ
overflow bits = if eqb bits 32 then 2 ^ 128 - 2 ^ 103 else 2 ^ 1024 - 2 ^ 970

-- Whether `n` times ten to the power of `point - count` reaches it.
unfoldable pub reaches : ℕ → ℕ → ℕ → ℤ → Bool
unfolding overflow
reaches bits n count (pos point) =
    leb (overflow bits * 10 ^ (count - point)) (n * 10 ^ (point - count))
reaches bits n count (negsuc k) = leb (overflow bits * 10 ^ (count + k + 1)) n

unfoldable pub overflows : ℕ → Decimal → Bool
unfolding reaches digits_value
overflows bits d = elim (digits_value 0 d.digits) [
  | none ↦ false
  | some n ↦ reaches bits n (length d.digits) d.point
]

-- `ParseFloat` fails on an overflow, and `expandDecimal` on an exponent that is out of range.
unfoldable pub float_literal : String → ℕ → Json → Try ValueError Json
unfolding parse_decimal to_string overflows
float_literal name bits raw = elim (parse_decimal (some raw)) [
  | none ↦ err (not_valid name)
  | some d ↦ if overflows bits d then err (not_valid name) else ok (num (to_string d))
]

bool_literal : Json → Try ValueError Json
bool_literal (bool b) = ok (bool b)
bool_literal _ = err (not_valid "bool")

-- A JSON text, quoted once.
json_text : Json → Try ValueError Json
unfolding decode_string valid_json
json_text raw = elim (decode_string raw) [
  | none ↦ err not_json_text
  | some value ↦ if valid_json (codes value) then ok raw else err not_json_text
]

is_base64 : ℕ → Bool
is_base64 c =
    (leb b'A' c && leb c b'Z')
    || (leb b'a' c && leb c b'z')
    || (leb b'0' c && leb c b'9')
    || eqb c b'+'
    || eqb c b'/'

-- The decoder passes over line breaks.
unfoldable pub without_breaks : Bytes → Bytes
without_breaks [] = []
without_breaks (c ∷ s) =
    let rest = without_breaks s in if eqb c 10 || eqb c 13 then rest else c ∷ rest

all_base64 : ℕ → ℕ → ℕ → ℕ → Bool
unfolding is_base64
all_base64 a b c d = is_base64 a && is_base64 b && is_base64 c && is_base64 d

-- The last two characters of padding.
padding : ℕ → ℕ → ℕ → ℕ → Bool
unfolding is_base64
padding a b c d = is_base64 a && is_base64 b && eqb d b'=' && (eqb c b'=' || is_base64 c)

-- `base64.StdEncoding`, and without padding `base64.RawStdEncoding`.
unfoldable pub std_base64 : Bytes → Bool
unfolding all_base64 padding
std_base64 [] = true
std_base64 (a ∷ b ∷ c ∷ d ∷ []) = all_base64 a b c d || padding a b c d
std_base64 (a ∷ b ∷ c ∷ d ∷ e ∷ s) = all_base64 a b c d && std_base64 (e ∷ s)
std_base64 _ = false

unfoldable pub raw_base64 : Bytes → Bool
unfolding all_base64 is_base64
raw_base64 [] = true
raw_base64 (a ∷ []) = false
raw_base64 (a ∷ b ∷ []) = is_base64 a && is_base64 b
raw_base64 (a ∷ b ∷ c ∷ []) = is_base64 a && is_base64 b && is_base64 c
raw_base64 (a ∷ b ∷ c ∷ d ∷ s) = all_base64 a b c d && raw_base64 s

base64_text : Json → Try ValueError Json
unfolding decode_string without_breaks std_base64 raw_base64
base64_text raw = elim (decode_string raw) [
  | none ↦ err not_a_string
  | some value ↦
      let s = without_breaks (codes value) in
      if std_base64 s || raw_base64 s then ok raw else err not_base64
]

plain_text : Json → Try ValueError Json
unfolding decode_string
plain_text raw = elim (decode_string raw) [ none ↦ err not_a_string | some value ↦ ok raw ]

unfoldable pub timestamp_from_micros : Json → Try ValueError Json
timestamp_from_micros (num literal) = elim (parse_int 64 literal) [
  | none ↦ err not_micros
  | some micros ↦ ok (plain (format_timestamp (unix_micro micros) false))
]
timestamp_from_micros _ = err not_micros

unfoldable pub timestamp_from_rfc3339 : Json → Try ValueError Json
unfolding decode_string
timestamp_from_rfc3339 raw = elim (decode_string raw) [
  | none ↦ err not_a_string
  | some value ↦ elim (parse_rfc3339 (codes value)) [
    | none ↦ err not_rfc3339
    | some t ↦ ok (plain (format_timestamp t true))
  ]
]

-- The `switch` on the type.
convert : PgType → Json → Try ValueError Json
unfolding bool_literal json_text base64_text plain_text integer_literal float_literal
    timestamp_from_micros timestamp_from_rfc3339
convert int2 raw = integer_literal "int2" 16 raw
convert int4 raw = integer_literal "int4" 32 raw
convert int8 raw = integer_literal "int8" 64 raw
convert float4 raw = float_literal "float4" 32 raw
convert float8 raw = float_literal "float8" 64 raw
convert PgType.bool raw = bool_literal raw
convert json raw = json_text raw
convert bytea raw = base64_text raw
convert text raw = plain_text raw
convert timestamp raw = timestamp_from_micros raw
convert timestamptz raw = timestamp_from_rfc3339 raw
convert (other name) raw = err unsupported_type

-- `ConvertValue`
unfoldable pub convert_value : PgType → Json → Try ValueError Json
unfolding convert
convert_value type null = ok null
convert_value type raw = convert type raw
