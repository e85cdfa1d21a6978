-- ===== src/Protocol/Values/Exactness.antt =====
-- What `ConvertValue` (internal/protocol/payload.go) keeps of a value.
use postie.Prelude.{
  ℕ, length, ◌<◌, String, Bool, true, false, Option, none, some, ◌≡◌, ◌≢◌, refl, ap, ◌∙◌, inl, inr,
  ◌⊎◌, ℤ, pos, negsuc, Bytes, All, arith, Option-cases,
}
use mathlib.Core.Path.{subst}
use postie.Prelude.Tries.{ok}
use postie.Encoding.{Json, null, bool, num, str, arr, obj, codes, plain}
use postie.Encoding.Scanner.{valid_json}
use postie.Stream.{
  PgType, int2, int4, int8, float4, float8, json, bytea, timestamp, timestamptz, text, other,
}
use postie.Protocol.Decimal.{Decimal, atoi, parse_decimal}
use postie.Protocol.Decimal.Exactness.{IsDigit, numeral}
use postie.Protocol.Decimal.Literals.{atoi-IsInteger, digits_value-numeral}
use postie.Protocol.Decimal.Readings.{parse_decimal-IsRead}
use postie.Protocol.Decimal.Signs.{to_string-IsValue}
use postie.Protocol.Times.{
  Instant, unix_micro, instant, format_timestamp, parse_rfc3339, day_of, days_before_year,
  days_before_month,
}
use postie.Protocol.Times.Text.{format_timestamp-IsStampText}
use postie.Protocol.Times.Calendar.{civil-IsCivil, instant-civil}
use postie.Protocol.Values.{
  in_bits, parse_int, integer_literal, float_literal, overflow, reaches, overflows, bool_literal,
  json_text, base64_text, plain_text, timestamp_from_micros, timestamp_from_rfc3339, convert,
  convert_value,
}
use postie.Protocol.Values.Meaning.{
  Fits, IsWhole, IsBelow, IsExpanded, IsStamp, IsSinceEpoch, IsMicros, IsRfc3339, IsText, IsBase64,
  Converts,
}

in_bits-Fits : (bits : ℕ) (n : ℤ) → in_bits bits n ≡ true → Fits bits n
unfolding in_bits
in_bits-Fits bits (pos n) h = ground arith
in_bits-Fits bits (negsuc n) h = ground arith

parse_int-Fits :
    (bits : ℕ) (literal : Bytes) (n : ℤ)
    → parse_int bits literal ≡ some n
    → (atoi literal ≡ some n) × Fits bits n
unfolding parse_int
parse_int-Fits bits literal n h = parsed (atoi literal) refl
  where
    parsed : (o : Option ℤ) → atoi literal ≡ o → (atoi literal ≡ some n) × Fits bits n
    parsed none e = absurd (ground arith)
    parsed (some m) e =
        let same : m ≡ n = ground arith in (e ∙ ap some same, in_bits-Fits bits n (ground arith))

whole :
    (name : String) (bits : ℕ) (raw w : Json)
    → integer_literal name bits raw ≡ ok w
    → IsWhole bits raw w
unfolding integer_literal
whole name bits (num literal) w h = elim (Option-cases (parse_int bits literal)) [
  | inl e ↦ absurd (ground arith)
  | inr (n, e) ↦
      let (reads, fits) = parse_int-Fits bits literal n e in
      record {
        literal = literal;
        value = n;
        given = refl;
        reads = atoi-IsInteger literal n reads;
        fits = fits;
        unchanged = ground arith;
      }
]
whole name bits null w h = absurd (cc)
whole name bits _ w h = absurd (cc)

below :
    (bits n count : ℕ) (point : ℤ) → reaches bits n count point ≡ false → IsBelow bits n count point
unfolding reaches overflow
below bits n count (pos point) h = ground arith
below bits n count (negsuc k) h = ground arith

overflows-IsBelow :
    (bits : ℕ) (d : Decimal)
    → overflows bits d ≡ false
    → All IsDigit d.digits
    → IsBelow bits (numeral 0 d.digits) (length d.digits) d.point
unfolding overflows
overflows-IsBelow bits d h all =
    below bits (numeral 0 d.digits) (length d.digits) d.point
      (rw (digits_value-numeral 0 d.digits all, overflows) at h)

expanded :
    (name : String) (bits : ℕ) (raw w : Json)
    → float_literal name bits raw ≡ ok w
    → IsExpanded bits raw w
unfolding float_literal parse_decimal
expanded name bits (num literal) w h = elim (Option-cases (parse_decimal (some (num literal)))) [
  | inl e ↦ absurd (ground arith)
  | inr (d, e) ↦ record {
    literal = literal;
    decimal = d;
    given = refl;
    reads = parse_decimal-IsRead literal d e;
    in_range = overflows-IsBelow bits d (ground arith);
    written = ground arith;
    exact = to_string-IsValue d;
  }
]
expanded name bits null w h = absurd (cc)
expanded name bits _ w h = absurd (cc)

stamped : (t : Instant) (zone : Bool) → IsStamp t zone (plain (format_timestamp t zone))
stamped t zone = record {
  stamp = format_timestamp t zone;
  written = refl;
  layout = format_timestamp-IsStampText t zone (civil-IsCivil t);
  valid = civil-IsCivil t;
  denotes = instant-civil t;
}

unix_micro-IsSinceEpoch : (n : ℤ) → Fits 64 n → IsSinceEpoch n (unix_micro n)
unfolding unix_micro instant day_of days_before_year days_before_month
unix_micro-IsSinceEpoch (pos n) h = refl
unix_micro-IsSinceEpoch (negsuc n) h =
    let small : n < 9223372036854775808 = h in omega (arith, small)

micros : (raw w : Json) → timestamp_from_micros raw ≡ ok w → IsMicros raw w
unfolding timestamp_from_micros
micros (num literal) w h = elim (Option-cases (parse_int 64 literal)) [
  | inl e ↦ absurd (ground arith)
  | inr (n, e) ↦
      let (reads, fits) = parse_int-Fits 64 literal n e in
      record {
        literal = literal;
        micros = n;
        t = unix_micro n;
        given = refl;
        reads = atoi-IsInteger literal n reads;
        fits = fits;
        since = unix_micro-IsSinceEpoch n fits;
        stamp = subst (IsStamp (unix_micro n) false) (ground arith) (stamped (unix_micro n) false);
      }
]
micros null w h = absurd (cc)
micros _ w h = absurd (cc)

rfc3339 : (raw w : Json) → raw ≢ null → timestamp_from_rfc3339 raw ≡ ok w → IsRfc3339 raw w
unfolding timestamp_from_rfc3339
rfc3339 (str literal s) w n h = elim (Option-cases (parse_rfc3339 (codes s))) [
  | inl e ↦ absurd (ground arith)
  | inr (t, e) ↦ record {
    literal = literal;
    value = s;
    t = t;
    given = refl;
    reads = e;
    stamp = subst (IsStamp t true) (ground arith) (stamped t true);
  }
]
rfc3339 null w n h = absurd (n refl)
rfc3339 _ w n h = absurd (cc)

quoted :
    (raw w : Json)
    → raw ≢ null
    → json_text raw ≡ ok w
    → IsText (λ s. valid_json (codes s) ≡ true) raw w
unfolding json_text
quoted (str l s) w n h = record {
  literal = l;
  value = s;
  given = refl;
  valid = ground arith;
  unchanged = ground arith;
}
quoted null w n h = absurd (n refl)
quoted _ w n h = absurd (cc)

encoded : (raw w : Json) → raw ≢ null → base64_text raw ≡ ok w → IsText IsBase64 raw w
unfolding base64_text
encoded (str l s) w n h = record {
  literal = l;
  value = s;
  given = refl;
  valid = ground arith;
  unchanged = ground arith;
}
encoded null w n h = absurd (n refl)
encoded _ w n h = absurd (cc)

unchanged : (raw w : Json) → raw ≢ null → plain_text raw ≡ ok w → IsText (λ s. Unit {0}) raw w
unfolding plain_text
unchanged (str l s) w n h = record {
  literal = l;
  value = s;
  given = refl;
  valid = tt;
  unchanged = ground arith;
}
unchanged null w n h = absurd (n refl)
unchanged _ w n h = absurd (cc)

boolean : (raw w : Json) → bool_literal raw ≡ ok w → (b : Bool) × (raw ≡ bool b) × (w ≡ raw)
unfolding bool_literal
boolean (bool b) w h = (b, refl, ground arith)
boolean null w h = absurd (cc)
boolean _ w h = absurd (cc)

converted :
    (type : PgType) (raw w : Json) → raw ≢ null → convert type raw ≡ ok w → Converts type raw w
unfolding convert
converted int2 raw w n h = whole "int2" 16 raw w h
converted int4 raw w n h = whole "int4" 32 raw w h
converted int8 raw w n h = whole "int8" 64 raw w h
converted float4 raw w n h = expanded "float4" 32 raw w h
converted float8 raw w n h = expanded "float8" 64 raw w h
converted PgType.bool raw w n h = boolean raw w h
converted json raw w n h = quoted raw w n h
converted bytea raw w n h = encoded raw w n h
converted text raw w n h = unchanged raw w n h
converted timestamp raw w n h = micros raw w h
converted timestamptz raw w n h = rfc3339 raw w n h
converted (other name) raw w n h = absurd (cc)

-- A value that is converted is null and stays it, or it is of its type: an integer, a sign and digits
-- that fit, left as it is; a number in the range of the float, whose sign, mantissa, point and
-- exponent give a decimal that is written without an exponent and with exactly its sign and value,
-- where its digits are digits; a boolean, a text, a JSON text or base64, left as it is; or an
-- instant: so many microseconds from 1970, with 64 bits, or what `time.Parse` reads in a text of
-- RFC 3339. Its text has the year (up to 999999), the month, the day, the hour, the minute, the second
-- and the nanoseconds without zeros at their end, of a date and a time of day of the calendar that
-- denote it, and a zone for RFC 3339.
pub convert_value-Converts :
    (type : PgType) (raw w : Json)
    → convert_value type raw ≡ ok w
    → (raw ≡ null) × (w ≡ null) ⊎ Converts type raw w
unfolding convert_value
convert_value-Converts type null w h = inl (refl, ground arith)
convert_value-Converts type (num l) w h = inr (converted type (num l) w (λ e. cc) h)
convert_value-Converts type (str l s) w h = inr (converted type (str l s) w (λ e. cc) h)
convert_value-Converts type (bool b) w h = inr (converted type (bool b) w (λ e. cc) h)
convert_value-Converts type (arr xs) w h = inr (converted type (arr xs) w (λ e. cc) h)
convert_value-Converts type (obj ms) w h = inr (converted type (obj ms) w (λ e. cc) h)
