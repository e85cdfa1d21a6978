-- ===== src/Protocol/Times.antt =====
-- The instants of internal/protocol/payload.go: what it takes of package time (`UnixMicro`, `Parse` at
-- RFC 3339, the date and time of day of `Format`) and `formatTimestamp`. An instant is the number of
-- nanoseconds since 1 March of the year -292800, before any that an int64 of microseconds reaches.
pub mod Calendar
pub mod Digits
pub mod Text
use Prim.Native.String
use postie.Prelude.{
  ℕ, zero, suc, ◌+◌, ◌-◌, ◌*◌, ◌/◌, ◌%◌, ◌^◌, String, Bool, true, false, not, ◌&&◌, ◌||◌, Option,
  none, some, List, [], ◌∷◌, if◌then◌else◌, ltb, leb, eqb, ℤ, pos, negsuc, Bytes, get_or,
}
use postie.Prelude.Options.{◌>>=◌, ◌>>◌, guard}

abbrev pub day_nanos : ℕ
day_nanos = 86400000000000

-- 146097 days make 400 years; 719468 days lie between 1 March of the year 0 and 1 January 1970.
abbrev pub era_days : ℕ
era_days = 146097

abbrev pub first_year : ℕ
first_year = 292800

abbrev pub epoch_day : ℕ
epoch_day = 732 * era_days + 719468

abbrev pub Instant : Type 0
Instant = ℕ

-- `time.UnixMicro`
unfoldable pub unix_micro : ℤ → Instant
unix_micro (pos n) = epoch_day * day_nanos + n * 1000
unix_micro (negsuc n) = epoch_day * day_nanos - (n + 1) * 1000

-- A date of the proleptic Gregorian calendar; `year` counts from the year -292800.
pub record Date : Type 0 where
  pub year : ℕ
  pub month : ℕ
  pub day : ℕ

-- The year from March, and the day in it, of the day of an era.
unfoldable pub era_year : ℕ → ℕ
era_year doe = (doe - doe / 1460 + doe / 36524 - doe / 146096) / 365

unfoldable pub days_before_year : ℕ → ℕ
days_before_year y = 365 * y + y / 4 - y / 100

-- Months count from March.
unfoldable pub month_of : ℕ → ℕ
month_of doy = (5 * doy + 2) / 153

unfoldable pub days_before_month : ℕ → ℕ
days_before_month m = (153 * m + 2) / 5

abbrev pub calendar_month : ℕ → ℕ
calendar_month m = if ltb m 10 then m + 3 else m - 9

unfoldable pub date_of : ℕ → Date
unfolding era_year days_before_year month_of days_before_month
date_of days =
    let doe = days % era_days in
    let yoe = era_year doe in
    let doy = doe - days_before_year yoe in
    let m = month_of doy in
    record {
      year = days / era_days * 400 + yoe + (if ltb m 10 then 0 else 1);
      month = calendar_month m;
      day = doy - days_before_month m + 1;
    }

abbrev pub march_month : ℕ → ℕ
march_month m = if ltb 2 m then m - 3 else m + 9

-- The day of a date: the days since the first 1 March.
unfoldable pub day_of : Date → ℕ
unfolding days_before_year days_before_month
day_of t =
    let y = if ltb 2 t.month then t.year else t.year - 1 in
    y / 400 * era_days
    + (days_before_year (y % 400) + (days_before_month (march_month t.month) + (t.day - 1)))

-- `time.Time`, taken apart.
pub record Civil : Type 0 where
  pub date : Date
  pub hour : ℕ
  pub minute : ℕ
  pub second : ℕ
  pub nanosecond : ℕ

unfoldable pub civil : Instant → Civil
unfolding date_of
civil t =
    let rest = t % day_nanos in
    record {
      date = date_of (t / day_nanos);
      hour = rest / 3600000000000;
      minute = rest / 60000000000 % 60;
      second = rest / 1000000000 % 60;
      nanosecond = rest % 1000000000;
    }

unfoldable pub instant : Civil → Instant
unfolding day_of
instant c =
    day_of c.date * day_nanos
    + ((c.hour * 3600 + c.minute * 60 + c.second) * 1000000000 + c.nanosecond)

digit : ℕ → String
digit d = get_or ("0" ∷ "1" ∷ "2" ∷ "3" ∷ "4" ∷ "5" ∷ "6" ∷ "7" ∷ "8" ∷ "9" ∷ []) d ""

infixr 65 ◌<>◌
abbrev ◌<>◌ : String → String → String
a <> b = String.◌++◌ a b

-- The last `width` digits of a number.
unfoldable pub padded : ℕ → ℕ → String
unfolding digit
padded zero n = ""
padded (suc width) n = padded width (n / 10) <> digit (n % 10)

-- `%09d` without the zeros at its end.
pub fraction : ℕ → ℕ → String
unfolding padded
fraction zero n = ""
fraction (suc width) n =
    let rest = fraction width (n / 10) in if eqb (n % 10) 0 then rest else padded (suc width) n

-- The year with four digits at least; the years of an int64 of microseconds have six at most.
year_digits : ℕ → String
unfolding padded
year_digits y = padded (if ltb y 10000 then 4 else if ltb y 100000 then 5 else 6) y

year_text : ℕ → String
unfolding year_digits
year_text y =
    if leb first_year y then year_digits (y - first_year) else "-" <> year_digits (first_year - y)

-- `formatTimestamp`
unfoldable pub format_timestamp : Instant → Bool → String
unfolding civil year_text padded fraction
format_timestamp t zone =
    let c = civil t in
    let decimals = fraction 9 c.nanosecond in
    year_text c.date.year
    <> "-"
    <> padded 2 c.date.month
    <> "-"
    <> padded 2 c.date.day
    <> " "
    <> padded 2 c.hour
    <> ":"
    <> padded 2 c.minute
    <> ":"
    <> padded 2 c.second
    <> (if eqb c.nanosecond 0 then "" else "." <> decimals)
    <> (if zone then "+00" else "")

-- Reading RFC 3339.
abbrev pub is_digit : ℕ → Bool
is_digit c = leb b'0' c && leb c b'9'

-- The next `width` digits, as `atoi` and `getnum` read them.
number : ℕ → ℕ → Bytes → Option (ℕ × Bytes)
number zero n s = some (n, s)
number (suc width) n [] = none
number (suc width) n (c ∷ s) =
    let rest = number width (n * 10 + (c - b'0')) s in if is_digit c then rest else none

-- `getnum`, where one digit is enough.
short_number : Bytes → Option (ℕ × Bytes)
short_number [] = none
short_number (a ∷ []) = if is_digit a then some (a - b'0', []) else none
short_number (a ∷ b ∷ s) =
    if not (is_digit a)
    then none
    else if is_digit b
    then some ((a - b'0') * 10 + (b - b'0'), s)
    else some (a - b'0', b ∷ s)

expect : ℕ → Bytes → Option Bytes
expect c [] = none
expect c (x ∷ s) = if eqb c x then some s else none

-- `parseNanoseconds`: the digits behind the point, of which the first nine count.
nanos : ℕ → ℕ → Bytes → ℕ × Bytes
nanos left n [] = (n * 10 ^ left, [])
nanos zero n (c ∷ s) = if is_digit c then nanos zero n s else (n, c ∷ s)
nanos (suc left) n (c ∷ s) =
    let rest = nanos left (n * 10 + (c - b'0')) s in
    if is_digit c then rest else (n * 10 ^ suc left, c ∷ s)

fraction_of : Bytes → ℕ × Bytes
unfolding nanos
fraction_of [] = (0, [])
fraction_of (a ∷ []) = (0, a ∷ [])
fraction_of (a ∷ b ∷ s) =
    if (eqb a b'.' || eqb a b',') && is_digit b then nanos 9 0 (b ∷ s) else (0, a ∷ b ∷ s)

-- The offset's sign (whether it is west) and its minutes, at the end of the text.
offset_from : Bool → Bytes → Option (Bool × ℕ)
unfolding number expect
offset_from west s = do
  (hours, s) ← number 2 0 s
  s ← expect b':' s
  (minutes, s) ← number 2 0 s
  guard (leb hours 24 && leb minutes 60)
  elim s [ [] ↦ some (west, hours * 60 + minutes) | c ∷ more ↦ none ]

zone_of : Bytes → Option (Bool × ℕ)
unfolding offset_from
zone_of [] = none
zone_of (c ∷ s) =
    if eqb c b'Z'
    then elim s [ [] ↦ some (false, 0) | d ∷ more ↦ none ]
    else if eqb c b'+'
    then offset_from false s
    else if eqb c b'-'
    then offset_from true s
    else none

unfoldable pub is_leap : ℕ → Bool
is_leap y = eqb (y % 4) 0 && (not (eqb (y % 100) 0) || eqb (y % 400) 0)

unfoldable pub days_in : ℕ → ℕ → ℕ
unfolding is_leap
days_in m y =
    if eqb m 2
    then (if is_leap y then 29 else 28)
    else if eqb m 4 || eqb m 6 || eqb m 9 || eqb m 11
    then 30
    else 31

date_from : Bytes → Option (Date × Bytes)
unfolding number expect
date_from s = do
  (year, s) ← number 4 0 s
  s ← expect b'-' s
  (month, s) ← number 2 0 s
  guard (leb 1 month && leb month 12)
  s ← expect b'-' s
  (day, s) ← number 2 0 s
  some (record { year = first_year + year; month = month; day = day }, s)

-- `time.Parse(time.RFC3339Nano, s)`; an offset is taken off.
unfoldable pub parse_rfc3339 : Bytes → Option Instant
unfolding date_from number short_number expect fraction_of zone_of days_in instant
parse_rfc3339 s = do
  (date, s) ← date_from s
  s ← expect b'T' s
  (hour, s) ← short_number s
  guard (ltb hour 24)
  s ← expect b':' s
  (minute, s) ← number 2 0 s
  guard (ltb minute 60)
  s ← expect b':' s
  (second, s) ← number 2 0 s
  guard (ltb second 60)
  let (nanosecond, s) = fraction_of s
  (west, minutes) ← zone_of s
  guard (leb 1 date.day && leb date.day (days_in date.month date.year))
  let t = instant (record {
    date = date;
    hour = hour;
    minute = minute;
    second = second;
    nanosecond = nanosecond;
  })
  let shift = minutes * 60000000000
  some (if west then t + shift else t - shift)
