-- ===== src/Wtpool/Lease/Time/RoundTrip.antt =====
-- What `unix_to_rfc3339` writes, `rfc3339_to_unix` reads back.
use mcp_tools.Prelude.{ℕ, ◌+◌, ◌*◌, ◌/◌, ◌%◌, ◌≤◌, ◌<◌, ◌≡◌, true, arith, ap, some, Str}
use mcp_tools.Prelude.Int.{pos, div_euclid-pos, rem_euclid-pos, +ℤ-pos, *ℤ-pos}
use mcp_tools.Wtpool.Lease.Time.{
  ymd_hms_to_unix, rfc3339_to_unix, unix_to_rfc3339, is_valid_rfc3339,
}
use mcp_tools.Wtpool.Lease.Time.Calendar.{
  month_of, day_of, day_of_era_year, calendar_year, civil_from_days-pos, days_from_civil-date_of,
  in_range-date_of, calendar_year_bounds, year_of_era_bounds,
}
use mcp_tools.Wtpool.Lease.Time.Stamp.{
  stamp, zero_padded-two, zero_padded-four, as_bytes-stamp, rfc3339_bytes_to_unix-stamp,
}

-- The last second of the year 9999, and one.
abbrev pub year_10000 : ℕ
year_10000 = 253402300800

abbrev epoch_day : ℕ → ℕ
epoch_day secs = secs / 86400 + 719468

-- The text of a moment.
abbrev stamp_of : ℕ → Str
stamp_of secs =
    stamp (calendar_year (epoch_day secs)) (month_of (day_of_era_year (epoch_day secs)))
      (day_of (day_of_era_year (epoch_day secs))) (secs % 86400 / 3600) (secs % 86400 % 3600 / 60)
      (secs % 86400 % 60)

day_of_era_year-le : (z : ℕ) → day_of_era_year z ≤ 365
day_of_era_year-le z = (year_of_era_bounds (z % 146097) (omega arith)).2

two_digit_month : (doy : ℕ) → doy ≤ 365 → month_of doy < 100
two_digit_month doy h = ground arith

two_digit_day : (doy : ℕ) → doy ≤ 365 → day_of doy < 100
two_digit_day doy h = ground arith

unix_to_rfc3339-stamp_of :
    (secs : ℕ) → secs < year_10000 → unix_to_rfc3339 (pos secs) ≡ stamp_of secs
unfolding unix_to_rfc3339
unix_to_rfc3339-stamp_of secs h =
    rw (div_euclid-pos secs 86400, rem_euclid-pos secs 86400, civil_from_days-pos (secs / 86400))
      (rw (
        zero_padded-four (calendar_year z) (calendar_year_bounds (secs / 86400) (omega arith)),
        zero_padded-two (month_of doy) (two_digit_month doy (day_of_era_year-le z)),
        zero_padded-two (day_of doy) (two_digit_day doy (day_of_era_year-le z)),
        zero_padded-two (secs % 86400 / 3600) (omega arith),
        zero_padded-two (secs % 86400 % 3600 / 60) (omega arith),
        zero_padded-two (secs % 86400 % 60) (omega arith),
      ))
  where
    z : ℕ
    z = secs / 86400 + 719468

    doy : ℕ
    doy = day_of_era_year (secs / 86400 + 719468)

ymd_hms_to_unix-stamp_of :
    (secs : ℕ)
    → ymd_hms_to_unix
        (calendar_year (epoch_day secs))
        (month_of (day_of_era_year (epoch_day secs)))
        (day_of (day_of_era_year (epoch_day secs)))
        (secs % 86400 / 3600)
        (secs % 86400 % 3600 / 60)
        (secs % 86400 % 60)
      ≡ pos secs
unfolding ymd_hms_to_unix
ymd_hms_to_unix-stamp_of secs =
    rw
      (
        days_from_civil-date_of (secs / 86400),
        *ℤ-pos (secs / 86400) 86400,
        +ℤ-pos (secs / 86400 * 86400) (secs % 86400 / 3600 * 3600),
        +ℤ-pos (secs / 86400 * 86400 + secs % 86400 / 3600 * 3600) (secs % 86400 % 3600 / 60 * 60),
        +ℤ-pos (secs / 86400 * 86400 + secs % 86400 / 3600 * 3600 + secs % 86400 % 3600 / 60 * 60)
            (secs % 86400 % 60),
      )
      (ap pos (omega arith))

-- Any moment from the epoch to the end of the year 9999 is written as a text that reads back as the
-- same moment.
pub rfc3339_to_unix-unix_to_rfc3339 :
    (secs : ℕ) → secs < year_10000 → rfc3339_to_unix (unix_to_rfc3339 (pos secs)) ≡ some (pos secs)
unfolding rfc3339_to_unix
rfc3339_to_unix-unix_to_rfc3339 secs h =
    let z : ℕ = secs / 86400 + 719468 in
    let doy : ℕ = day_of_era_year (secs / 86400 + 719468) in
    let year = calendar_year_bounds (secs / 86400) (omega arith) in
    let month = two_digit_month doy (day_of_era_year-le z) in
    let day = two_digit_day doy (day_of_era_year-le z) in
    rw
      (
        unix_to_rfc3339-stamp_of secs h,
        as_bytes-stamp (calendar_year z) (month_of doy) (day_of doy) (secs % 86400 / 3600)
            (secs % 86400 % 3600 / 60) (secs % 86400 % 60) year month day (omega arith)
            (omega arith) (omega arith),
        rfc3339_bytes_to_unix-stamp (calendar_year z) (month_of doy) (day_of doy)
            (secs % 86400 / 3600) (secs % 86400 % 3600 / 60) (secs % 86400 % 60) year month day
            (in_range-date_of z _ _ _ (omega arith) (omega arith) (omega arith)) (omega arith)
            (omega arith) (omega arith),
      )
      (ap some (ymd_hms_to_unix-stamp_of secs))

-- So the time stamp that a lease emitter makes from the clock is a valid one.
pub is_valid_rfc3339-unix_to_rfc3339 :
    (secs : ℕ) → secs < year_10000 → is_valid_rfc3339 (unix_to_rfc3339 (pos secs)) ≡ true
unfolding is_valid_rfc3339
is_valid_rfc3339-unix_to_rfc3339 secs h =
    rw (rfc3339_to_unix-unix_to_rfc3339 secs h, is_valid_rfc3339)
