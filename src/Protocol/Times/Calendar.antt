-- ===== src/Protocol/Times/Calendar.antt =====
-- The calendar of `civil` and `instant`: each is the other's inverse.
use native.Mathlib.Decide.{dec_le}
use postie.Prelude.{
  ◌∙◌, inl, inr, if◌then◌else◌, ltb, ◌⊎◌, true, ℕ, ◌+◌, ◌-◌, ◌*◌, ◌/◌, ◌%◌, ◌≡◌, ◌≤◌, ◌<◌, arith,
}
use postie.Protocol.Times.{
  era_year, days_before_year, month_of, days_before_month, date_of, is_leap, days_in, Civil, day_of,
  era_days, calendar_month, march_month, civil, instant,
}

era_year_bounds :
    (doe : ℕ)
    → doe < era_days
    → (era_year doe < 400)
      × (days_before_year (era_year doe) ≤ doe)
      × (doe ≤ days_before_year (era_year doe) + 365)
unfolding era_year days_before_year
era_year_bounds doe h = (omega arith, omega arith, omega arith)

month_bounds :
    (doy : ℕ)
    → doy ≤ 365
    → (month_of doy < 12)
      × (days_before_month (month_of doy) ≤ doy)
      × (doy ≤ days_before_month (month_of doy) + 30)
unfolding month_of days_before_month
month_bounds doy h = omega arith

march-calendar : (m : ℕ) → m < 12 → march_month (calendar_month m) ≡ m
march-calendar m h = ground arith

day_of-date_of : (d : ℕ) → day_of (date_of d) ≡ d
unfolding day_of date_of
day_of-date_of d =
    let doe = d % era_days in
    let yoe = era_year doe in
    let doy = doe - days_before_year yoe in
    let (a, b, c) = era_year_bounds doe (omega arith) in
    let (p, q, r) = month_bounds doy (omega arith) in
    ground (arith, march-calendar (month_of doy) p)

pub instant-civil : (t : ℕ) → instant (civil t) ≡ t
unfolding instant civil
instant-civil t = omega (arith, day_of-date_of (t / 86400000000000))

-- A date and time of day of the calendar.
pub record IsCivil (c : Civil) : Type 0 where
  pub month : (1 ≤ c.date.month) × (c.date.month ≤ 12)
  pub day : (1 ≤ c.date.day) × (c.date.day ≤ days_in c.date.month c.date.year)
  pub hour : c.hour < 24
  pub minute : c.minute < 60
  pub second : c.second < 60
  pub nanosecond : c.nanosecond < 1000000000

-- The last day of a year from March.
last_of_four :
    (doe : ℕ)
    → doe < era_days
    → doe ≡ days_before_year (era_year doe) + 365
    → ((era_year doe + 1) % 4 ≡ 0)
unfolding era_year days_before_year
last_of_four doe h e = omega arith

last_of_century :
    (doe : ℕ)
    → doe < era_days
    → doe ≡ days_before_year (era_year doe) + 365
    → (era_year doe + 1) % 100 ≡ 0
    → ((era_year doe + 1) % 400 ≡ 0)
unfolding era_year days_before_year
last_of_century doe h e z = omega arith

last_day :
    (doe : ℕ)
    → doe < era_days
    → doe - days_before_year (era_year doe) ≤ 364
      ⊎ (is_leap (era_year doe + 1) ≡ true) × (doe - days_before_year (era_year doe) ≤ 365)
unfolding era_year days_before_year is_leap
last_day doe h = ground arith

month_days :
    (doy y : ℕ)
    → doy ≤ 364
    → doy - days_before_month (month_of doy) + 1 ≤ days_in (calendar_month (month_of doy)) y
unfolding month_of days_before_month days_in is_leap
month_days doy y h = ground arith

is_leap-era : (e y : ℕ) → is_leap (e * 400 + y + 1) ≡ is_leap (y + 1)
unfolding is_leap
is_leap-era e y = ground arith

-- The one day beyond 364 is 29 February.
leap_day :
    (y : ℕ)
    → is_leap y ≡ true
    → 365 - days_before_month (month_of 365) + 1 ≤ days_in (calendar_month (month_of 365)) y
unfolding month_of days_before_month days_in
leap_day y h = ground arith

day_fits :
    (era yoe doy : ℕ)
    → doy ≤ 364 ⊎ (is_leap (yoe + 1) ≡ true) × (doy ≤ 365)
    → doy - days_before_month (month_of doy) + 1
      ≤ days_in
          (calendar_month (month_of doy))
          (era * 400 + yoe + (if ltb (month_of doy) 10 then 0 else 1))
day_fits era yoe doy (inl h) = month_days doy _ h
day_fits era yoe doy (inr (leap, h)) = elim (dec_le doy 364) [
  | yes le ↦ month_days doy _ le
  | no nle ↦
      let e : doy ≡ 365 = omega arith in
      rw e (unfold month_of in leap_day (era * 400 + yoe + 1) (is_leap-era era yoe ∙ leap))
]

pub civil-IsCivil : (t : ℕ) → IsCivil (civil t)
unfolding civil date_of
civil-IsCivil t =
    let d = t / 86400000000000 in
    let doe = d % era_days in
    let yoe = era_year doe in
    let doy = doe - days_before_year yoe in
    let (a, b, c) = era_year_bounds doe (omega arith) in
    let (p, q, r) = month_bounds doy (omega arith) in
    record {
      month = ground arith;
      day = (omega arith, day_fits (d / era_days) yoe doy (last_day doe (omega arith)));
      hour = omega arith;
      minute = omega arith;
      second = omega arith;
      nanosecond = omega arith;
    }
