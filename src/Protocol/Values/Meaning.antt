-- ===== src/Protocol/Values/Meaning.antt =====
-- What each type of `ConvertValue` (internal/protocol/payload.go) asks of a value and of its text.
use postie.Prelude.{
  ℕ, ◌+◌, ◌*◌, eqb, length, if◌then◌else◌, ◌-◌, ◌^◌, ◌<◌, String, Bool, true, false, some, ◌≡◌, ℤ,
  pos, negsuc, Bytes, All, ◌||◌,
}
use postie.Encoding.{Json, bool, num, str, codes, plain}
use postie.Encoding.Scanner.{valid_json}
use postie.Stream.{
  PgType, int2, int4, int8, float4, float8, json, bytea, timestamp, timestamptz, text, other,
}
use postie.Protocol.Decimal.{Decimal, split_sign, to_string}
use postie.Protocol.Decimal.Exactness.{IsDigit, numeral, IsValue, read_number}
use postie.Protocol.Decimal.Literals.{IsInteger}
use postie.Protocol.Decimal.Readings.{IsRead}
use postie.Protocol.Times.{Instant, first_year, civil, instant, parse_rfc3339}
use postie.Protocol.Times.Text.{IsStampText}
use postie.Protocol.Times.Calendar.{IsCivil}
use postie.Protocol.Values.{without_breaks, std_base64, raw_base64}

-- A signed integer of so many bits.
abbrev pub Fits : ℕ → ℤ → Type 0
Fits bits (pos n) = n < 2 ^ (bits - 1)
Fits bits (negsuc n) = n < 2 ^ (bits - 1)

-- The literal of an integer in range, unchanged.
pub record IsWhole (bits : ℕ) (raw w : Json) : Type 0 where
  pub literal : Bytes
  pub value : ℤ
  pub given : raw ≡ num literal
  pub reads : IsInteger literal value
  pub fits : Fits bits value
  pub unchanged : w ≡ raw

-- The least magnitude that rounds beyond the largest float of this width.
abbrev pub too_large : ℕ → ℕ
too_large bits = if eqb bits 32 then 2 ^ 128 - 2 ^ 103 else 2 ^ 1024 - 2 ^ 970

-- `n` times ten to the power of `point - count` is below that.
abbrev pub IsBelow : ℕ → ℕ → ℕ → ℤ → Type 0
IsBelow bits n count (pos point) = n * 10 ^ (point - count) < too_large bits * 10 ^ (count - point)
IsBelow bits n count (negsuc k) = n < too_large bits * 10 ^ (count + k + 1)

-- A number whose literal reads as this decimal, and that has exactly the same sign and value without
-- an exponent; no float of this width is too small for it.
pub record IsExpanded (bits : ℕ) (raw w : Json) : Type 0 where
  pub literal : Bytes
  pub decimal : Decimal
  pub given : raw ≡ num literal
  pub reads : IsRead literal decimal
  pub in_range :
      All IsDigit decimal.digits
      → IsBelow bits (numeral 0 decimal.digits) (length decimal.digits) decimal.point
  pub written : w ≡ num (to_string decimal)
  pub exact :
      All IsDigit decimal.digits
      → ((split_sign (to_string decimal)).0 ≡ decimal.negative)
        × IsValue decimal.digits decimal.point (read_number (split_sign (to_string decimal)).1)

-- The text of an instant, whose date and time of day are of the calendar and denote it.
pub record IsStamp (t : Instant) (zone : Bool) (w : Json) : Type 0 where
  pub stamp : String
  pub written : w ≡ plain stamp
  pub layout : IsStampText (civil t) zone (codes stamp)
  pub valid : IsCivil (civil t)
  pub denotes : instant (civil t) ≡ t

-- 1970-01-01 00:00:00.
abbrev pub epoch : Instant
epoch = instant (record {
  date = record { year = first_year + 1970; month = 1; day = 1 };
  hour = 0;
  minute = 0;
  second = 0;
  nanosecond = 0;
})

-- So many microseconds from there, in nanoseconds.
abbrev pub IsSinceEpoch : ℤ → Instant → Type 0
IsSinceEpoch (pos n) t = t ≡ epoch + n * 1000
IsSinceEpoch (negsuc n) t = t + (n + 1) * 1000 ≡ epoch

pub record IsMicros (raw w : Json) : Type 0 where
  pub literal : Bytes
  pub micros : ℤ
  pub given : raw ≡ num literal
  pub t : Instant
  pub reads : IsInteger literal micros
  pub fits : Fits 64 micros
  pub since : IsSinceEpoch micros t
  pub stamp : IsStamp t false w

pub record IsRfc3339 (raw w : Json) : Type 0 where
  pub literal : Bytes
  pub value : String
  pub t : Instant
  pub given : raw ≡ str literal value
  pub reads : parse_rfc3339 (codes value) ≡ some t
  pub stamp : IsStamp t true w

-- A text of which this holds, unchanged.
pub record IsText (P : String → Type 0) (raw w : Json) : Type 0 where
  pub literal : Bytes
  pub value : String
  pub given : raw ≡ str literal value
  pub valid : P value
  pub unchanged : w ≡ raw

abbrev pub IsBase64 : String → Type 0
IsBase64 value =
    (std_base64 (without_breaks (codes value)) || raw_base64 (without_breaks (codes value))) ≡ true

abbrev pub Converts : PgType → Json → Json → Type 0
Converts int2 raw w = IsWhole 16 raw w
Converts int4 raw w = IsWhole 32 raw w
Converts int8 raw w = IsWhole 64 raw w
Converts float4 raw w = IsExpanded 32 raw w
Converts float8 raw w = IsExpanded 64 raw w
Converts PgType.bool raw w = (b : Bool) × (raw ≡ bool b) × (w ≡ raw)
Converts json raw w = IsText (λ s. valid_json (codes s) ≡ true) raw w
Converts bytea raw w = IsText IsBase64 raw w
Converts text raw w = IsText (λ s. Unit {0}) raw w
Converts timestamp raw w = IsMicros raw w
Converts timestamptz raw w = IsRfc3339 raw w
Converts (other name) raw w = ⊥
