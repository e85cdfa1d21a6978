-- ===== src/Protocol/Times/Text.antt =====
-- The text of an instant (`formatTimestamp` of internal/protocol/payload.go), read back.
use postie.Prelude.{
  ℕ, ◌+◌, ◌-◌, ◌≤◌, ◌<◌, ◌≡◌, ◌∙◌, refl, ap, ◌⊎◌, inl, inr, String, Bool, true, false, [], ◌∷◌,
  ◌++◌, Bytes, arith, Bool-cases, eqb, eqb_iff, leb, ltb, if◌then◌else◌,
}
use postie.Encoding.{codes}
use postie.Protocol.Times.Calendar.{IsCivil}
use postie.Protocol.Times.{
  ◌<>◌, first_year, days_in, padded, fraction, year_digits, year_text, Instant, Civil, civil,
  format_timestamp,
}
use postie.Protocol.Times.Digits.{Reads, Trims, codes-append, padded-Reads, fraction-Trims}

-- The year: its distance from the year 0, of four digits at least, with a sign before it.
pub record IsYear (y : ℕ) (s : Bytes) : Type 0 where
  pub sign : Bytes
  pub number : Bytes
  pub distance : ℕ
  pub count : ℕ
  pub four : 4 ≤ count
  pub written : s ≡ sign ++ number
  pub reads : Reads count distance number
  pub dated :
      (sign ≡ []) × (y ≡ first_year + distance) ⊎ (sign ≡ b'-' ∷ []) × (y + distance ≡ first_year)

year_digits-Reads :
    (y : ℕ) → y < 1000000 → (count : ℕ) × (4 ≤ count) × Reads count y (codes (year_digits y))
unfolding year_digits
year_digits-Reads y h = elim (Bool-cases (ltb y 10000)) [
  | inl small ↦ (4, omega arith, rw (small, year_digits) (padded-Reads 4 y (ground arith)))
  | inr big ↦ elim (Bool-cases (ltb y 100000)) [
    | inl five ↦ (5, omega arith, rw (big, year_digits) (rw five (padded-Reads 5 y (ground arith))))
    | inr six ↦ (6, omega arith, rw (big, year_digits) (rw six (padded-Reads 6 y (ground arith))))
  ]
]

year_text-IsYear : (y : ℕ) → y < first_year + 1000000 → IsYear y (codes (year_text y))
unfolding year_text
year_text-IsYear y h = elim (Bool-cases (leb first_year y)) [
  | inl late ↦
      let (count, four, r) = year_digits-Reads (y - first_year) (ground arith) in
      rw (late, year_text)
        (record {
          sign = [];
          number = codes (year_digits (y - first_year));
          distance = y - first_year;
          count = count;
          four = four;
          written = refl;
          reads = r;
          dated = inl (refl, ground arith);
        })
  | inr early ↦
      let (count, four, r) = year_digits-Reads (first_year - y) (ground arith) in
      rw (early, year_text)
        (record {
          sign = b'-' ∷ [];
          number = codes (year_digits (first_year - y));
          distance = first_year - y;
          count = count;
          four = four;
          written = codes-append "-" (year_digits (first_year - y));
          reads = r;
          dated = inr (refl, ground arith);
        })
]

-- `2006-01-02 15:04:05`, the nanoseconds if there are any, and `+00`.
pub record IsStampText (c : Civil) (zone : Bool) (s : Bytes) : Type 0 where
  pub year : Bytes
  pub month : Bytes
  pub day : Bytes
  pub hour : Bytes
  pub minute : Bytes
  pub second : Bytes
  pub behind : Bytes
  pub layout :
      s
      ≡ year
        ++ b'-'
          ∷ (month
              ++ b'-'
                ∷ (day
                    ++ b' '
                      ∷ (hour
                          ++ b':'
                            ∷ (minute
                                ++ b':'
                                  ∷ (second
                                      ++ (behind
                                          ++ (if zone then b'+' ∷ b'0' ∷ b'0' ∷ [] else [])))))))
  pub year_read : c.date.year < first_year + 1000000 → IsYear c.date.year year
  pub month_read : Reads 2 c.date.month month
  pub day_read : Reads 2 c.date.day day
  pub hour_read : Reads 2 c.hour hour
  pub minute_read : Reads 2 c.minute minute
  pub second_read : Reads 2 c.second second
  pub nanos_read :
      (c.nanosecond ≡ 0) × (behind ≡ [])
      ⊎ ((ds : Bytes) × (behind ≡ b'.' ∷ ds) × Trims 9 c.nanosecond ds)

days_in_le : (m y : ℕ) → days_in m y ≤ 31
unfolding days_in
days_in_le m y = ground arith

behind_point : ℕ → String
behind_point n = if eqb n 0 then "" else "." <> fraction 9 n

behind_point-reads :
    (n : ℕ)
    → n < 1000000000
    → (n ≡ 0) × (codes (behind_point n) ≡ [])
      ⊎ ((ds : Bytes) × (codes (behind_point n) ≡ b'.' ∷ ds) × Trims 9 n ds)
unfolding behind_point
behind_point-reads n h = elim (Bool-cases (eqb n 0)) [
  | inl z ↦ rw z (inl ((eqb_iff n 0).0 z, refl))
  | inr nz ↦ rw nz (
      inr (
        codes (fraction 9 n),
        codes-append "." (fraction 9 n),
        elim (fraction-Trims 9 n h) [
          | inl (e, empty) ↦ absurd (ground (arith, eqb_iff n 0))
          | inr t ↦ t
        ],
      ))
]

zone_codes :
    (zone : Bool)
    → codes (if zone then "+00" else "") ≡ (if zone then b'+' ∷ b'0' ∷ b'0' ∷ [] else [])
zone_codes true = refl
zone_codes false = refl

-- A separator between two texts.
between :
    (a sep b : String) (c : ℕ) (s : Bytes)
    → codes sep ≡ c ∷ []
    → codes b ≡ s
    → codes (a <> (sep <> b)) ≡ codes a ++ c ∷ s
between a sep b c s h k =
    let joined : codes (sep <> b) ≡ c ∷ s =
      codes-append sep b ∙ ap (λ x. x ++ codes b) h ∙ ap (λ x. c ∷ x) k in
    codes-append a (sep <> b) ∙ ap (λ x. codes a ++ x) joined

format_timestamp-parts :
    (t : Instant) (zone : Bool)
    → format_timestamp t zone
      ≡ year_text (civil t).date.year
        <> "-"
        <> padded 2 (civil t).date.month
        <> "-"
        <> padded 2 (civil t).date.day
        <> " "
        <> padded 2 (civil t).hour
        <> ":"
        <> padded 2 (civil t).minute
        <> ":"
        <> padded 2 (civil t).second
        <> behind_point (civil t).nanosecond
        <> (if zone then "+00" else "")
unfolding format_timestamp behind_point
format_timestamp-parts t zone = refl

pub format_timestamp-IsStampText :
    (t : Instant) (zone : Bool)
    → IsCivil (civil t)
    → IsStampText (civil t) zone (codes (format_timestamp t zone))
format_timestamp-IsStampText t zone valid =
    let c = civil t in
    record {
      year = codes (year_text c.date.year);
      month = codes (padded 2 c.date.month);
      day = codes (padded 2 c.date.day);
      hour = codes (padded 2 c.hour);
      minute = codes (padded 2 c.minute);
      second = codes (padded 2 c.second);
      behind = codes (behind_point c.nanosecond);
      layout =
          ap codes (format_timestamp-parts t zone)
          ∙ between (year_text c.date.year) "-" _ b'-' _ refl (
              between (padded 2 c.date.month) "-" _ b'-' _ refl (
                between (padded 2 c.date.day) " " _ b' ' _ refl (
                  between (padded 2 c.hour) ":" _ b':' _ refl (
                    between (padded 2 c.minute) ":" _ b':' _ refl (
                      codes-append (padded 2 c.second) _
                      ∙ ap (λ x. codes (padded 2 c.second) ++ x)
                          (codes-append (behind_point c.nanosecond) (if zone then "+00" else "")
                            ∙ ap (λ x. codes (behind_point c.nanosecond) ++ x)
                                (zone_codes zone)))))));
      year_read = year_text-IsYear c.date.year;
      month_read = padded-Reads 2 c.date.month (omega (arith, valid.month));
      day_read =
          padded-Reads 2 c.date.day (omega (arith, valid.day, days_in_le c.date.month c.date.year));
      hour_read = padded-Reads 2 c.hour (omega (arith, valid.hour));
      minute_read = padded-Reads 2 c.minute (omega (arith, valid.minute));
      second_read = padded-Reads 2 c.second (omega (arith, valid.second));
      nanos_read = behind_point-reads c.nanosecond valid.nanosecond;
    }
