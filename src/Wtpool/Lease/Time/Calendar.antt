-- ===== src/Wtpool/Lease/Time/Calendar.antt =====
-- The calendar arithmetic of wtpool/src/lease.rs: `ymd_hms_to_unix` and `unix_to_rfc3339` take a
-- day number to a date and back.
use mcp_tools.Prelude.{
  ℕ, ◌+◌, ◌-◌, ◌*◌, ◌/◌, ◌%◌, ◌≤◌, ◌<◌, ◌≡◌, inl, inr, true, arith, ltb, leb, ap, ◌∙◌, Bool-cases,
  inl, inr, if◌then◌else◌,
}
use mcp_tools.Prelude.Int.{+ℤ-pos, -ℤ-pos, *ℤ-pos, div_euclid-pos, pos, ◌-ℤ◌}
use mcp_tools.Wtpool.Lease.Time.{
  is_leap, days_in_month, day_of_year, days_from_civil, year_of_era, Civil, civil_from_days,
  in_range, civil_of_era,
}

-- The first day of a year of the era, which begins in March.
abbrev pub year_start : ℕ → ℕ
year_start yoe = 365 * yoe + yoe / 4 - yoe / 100

abbrev pub month_index : ℕ → ℕ
month_index doy = (5 * doy + 2) / 153

abbrev pub month_of : ℕ → ℕ
month_of doy = if ltb (month_index doy) 10 then month_index doy + 3 else month_index doy - 9

abbrev pub day_of : ℕ → ℕ
day_of doy = doy - (153 * month_index doy + 2) / 5 + 1

pub year_of_era_bounds :
    (doe : ℕ)
    → doe < 146097
    → (year_of_era doe < 400)
      × (year_start (year_of_era doe) ≤ doe)
      × (doe - year_start (year_of_era doe) ≤ 365)
unfolding year_of_era
year_of_era_bounds doe h = (omega arith, omega arith, omega arith)

-- The 366th day of a year of the era exists only if the next calendar year is a leap year.
year_of_era-last :
    (doe : ℕ)
    → doe < 146097
    → doe - year_start (year_of_era doe) ≡ 365
    → is_leap (year_of_era doe + 1) ≡ true
unfolding year_of_era is_leap
year_of_era-last doe h e = ground arith

day_of_year-month_of : (doy : ℕ) → doy ≤ 365 → day_of_year (month_of doy) (day_of doy) ≡ doy
unfolding day_of_year
day_of_year-month_of doy h = ground arith

pub month_of_bounds : (doy : ℕ) → doy ≤ 365 → (1 ≤ month_of doy) × (month_of doy ≤ 12)
month_of_bounds doy h = ground arith

pub day_of_bounds :
    (doy year : ℕ)
    → doy ≤ 365
    → (doy ≡ 365 → is_leap year ≡ true)
    → (1 ≤ day_of doy) × (day_of doy ≤ days_in_month year (month_of doy))
unfolding days_in_month
day_of_bounds doy year h leap = ground arith

-- The year of a date, by the number of days since the first of March of the year 0.
abbrev pub day_of_era_year : ℕ → ℕ
day_of_era_year z = z % 146097 - year_start (year_of_era (z % 146097))

abbrev pub march_year : ℕ → ℕ
march_year z = year_of_era (z % 146097) + z / 146097 * 400

abbrev pub calendar_year : ℕ → ℕ
calendar_year z = if leb (month_of (day_of_era_year z)) 2 then march_year z + 1 else march_year z

abbrev pub date_of : ℕ → Civil
date_of z = record {
  year = pos (calendar_year z);
  month = month_of (day_of_era_year z);
  day = day_of (day_of_era_year z);
}

civil_of_era-pos : (z : ℕ) → civil_of_era (pos (z / 146097)) (z % 146097) ≡ date_of z
unfolding civil_of_era
civil_of_era-pos z =
    rw (*ℤ-pos (z / 146097) 400, +ℤ-pos (year_of_era (z % 146097)) (z / 146097 * 400))
      (rw (+ℤ-pos (march_year z) 1) (ground arith))

pub civil_from_days-pos : (days : ℕ) → civil_from_days (pos days) ≡ date_of (days + 719468)
unfolding civil_from_days
civil_from_days-pos days =
    rw
      (
        +ℤ-pos days 719468,
        div_euclid-pos (days + 719468) 146097,
        *ℤ-pos ((days + 719468) / 146097) 146097,
        -ℤ-pos (days + 719468) ((days + 719468) / 146097 * 146097) (omega arith),
      )
      (let same : days + 719468 - (days + 719468) / 146097 * 146097 ≡ (days + 719468) % 146097 =
          omega arith in
        rw same (civil_of_era-pos (days + 719468)))

march_year_lem :
    (z : ℕ)
    → (if leb (month_of (day_of_era_year z)) 2
        then pos (calendar_year z) -ℤ pos 1
        else pos (calendar_year z))
      ≡ pos (march_year z)
march_year_lem z = elim (Bool-cases (leb (month_of (day_of_era_year z)) 2)) [
  | inl early ↦ rw early (-ℤ-pos (march_year z + 1) 1 (omega arith) ∙ ap pos (omega arith))
  | inr late ↦ rw late
]

pub days_from_civil-date_of :
    (days : ℕ)
    → let z = days + 719468 in
      days_from_civil (calendar_year z) (month_of (day_of_era_year z)) (day_of (day_of_era_year z))
      ≡ pos days
unfolding days_from_civil
days_from_civil-date_of days =
    let z : ℕ = days + 719468 in
    let bounds = year_of_era_bounds (z % 146097) (omega arith) in
    let era : march_year z / 400 ≡ z / 146097 = omega arith in
    let yoe : march_year z - z / 146097 * 400 ≡ year_of_era (z % 146097) = omega arith in
    let total : year_of_era (z % 146097) * 365
          + year_of_era (z % 146097) / 4
          - year_of_era (z % 146097) / 100
          + day_of_era_year z
        ≡ z % 146097 =
      omega arith in
    rw
      (
        march_year_lem z,
        div_euclid-pos (march_year z) 400,
        era,
        *ℤ-pos (z / 146097) 400,
        -ℤ-pos (march_year z) (z / 146097 * 400) (omega arith),
        yoe,
        day_of_year-month_of (day_of_era_year z) (omega arith),
      )
      (rw
        (
          total,
          *ℤ-pos (z / 146097) 146097,
          +ℤ-pos (z / 146097 * 146097) (z % 146097),
          -ℤ-pos (z / 146097 * 146097 + z % 146097) 719468 (omega arith),
        )
        (ap pos (omega arith)))

is_leap-add : (y era : ℕ) → is_leap (y + era * 400) ≡ is_leap y
unfolding is_leap
is_leap-add y era = ground arith

calendar_year-last : (z : ℕ) → day_of_era_year z ≡ 365 → is_leap (calendar_year z) ≡ true
calendar_year-last z e =
    let year : calendar_year z ≡ year_of_era (z % 146097) + 1 + z / 146097 * 400 = ground arith in
    rw (year, is_leap-add) (year_of_era-last (z % 146097) (omega arith) e)

-- The date of a day is a day of the calendar.
pub in_range-date_of :
    (z hour minute second : ℕ)
    → hour < 24
    → minute < 60
    → second < 60
    → in_range
        (calendar_year z)
        (month_of (day_of_era_year z))
        (day_of (day_of_era_year z))
        hour
        minute
        second
      ≡ true
unfolding in_range
in_range-date_of z hour minute second h m s = ground (
  arith,
  year_of_era_bounds (z % 146097),
  month_of_bounds (day_of_era_year z),
  day_of_bounds (day_of_era_year z) (calendar_year z)
      (omega (arith, year_of_era_bounds (z % 146097))) (calendar_year-last z),
)

pub calendar_year_bounds : (days : ℕ) → days < 2932897 → calendar_year (days + 719468) < 10000
calendar_year_bounds days h = ground (arith, year_of_era_bounds ((days + 719468) % 146097))
