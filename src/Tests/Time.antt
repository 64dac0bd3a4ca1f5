-- ===== src/Tests/Time.antt =====
-- Runs of the time stamps of wtpool/src/lease.rs.
use mcp_tools.Prelude.{◌≡◌, refl, none, some, arith, str, as_bytes}
use mcp_tools.Prelude.Int.{pos, ◌+ℤ◌, ◌-ℤ◌, ◌*ℤ◌, div_euclid, rem_euclid}
use mcp_tools.Prelude.Decimal.{decimal}
use mcp_tools.Wtpool.Lease.Time.{
  civil_from_days, zero_padded, days_from_civil, day_of_year, rfc3339_bytes_to_unix, parse_fields,
  parse_digits, skip_fraction, parse_timezone, in_range, days_in_month, is_leap, ymd_hms_to_unix,
  rfc3339_to_unix, unix_to_rfc3339,
}
use mcp_tools.Wtpool.Lease.Time.RoundTrip.{rfc3339_to_unix-unix_to_rfc3339}
use mcp_tools.Wtpool.Lease.Time.NextDay.{Date, IsDate, next, ymd_hms_to_unix-next}

rfc3339_to_unix-unix_to_rfc3339_example :
    rfc3339_to_unix (unix_to_rfc3339 (pos 1_709_208_000)) ≡ some (pos 1_709_208_000)
rfc3339_to_unix-unix_to_rfc3339_example =
    rfc3339_to_unix-unix_to_rfc3339 1_709_208_000 (omega arith)

leap_day : unix_to_rfc3339 (pos 1_709_208_000) ≡ str "2024-02-29T12:00:00Z"
unfolding unix_to_rfc3339 civil_from_days ◌-ℤ◌ ◌+ℤ◌ div_euclid ◌*ℤ◌ zero_padded decimal rem_euclid
leap_day = refl

with_offset : rfc3339_to_unix (str "2024-02-29T14:00:00.25+02:00") ≡ some (pos 1_709_208_000)
unfolding rfc3339_to_unix rfc3339_bytes_to_unix as_bytes parse_fields parse_digits skip_fraction
    parse_timezone in_range ◌-ℤ◌ ymd_hms_to_unix ◌+ℤ◌ ◌*ℤ◌ days_from_civil div_euclid day_of_year
with_offset = refl

no_such_day : rfc3339_to_unix (str "2023-02-29T12:00:00Z") ≡ none
unfolding rfc3339_to_unix rfc3339_bytes_to_unix as_bytes parse_fields parse_digits skip_fraction
    parse_timezone in_range
no_such_day = refl

abbrev february_29 : Date
february_29 = record { year = 2024; month = 2; day = 29 }

february_29-IsDate : IsDate february_29
unfolding days_in_month is_leap
february_29-IsDate = record {
  year_from = omega arith;
  month_from = omega arith;
  month_to = omega arith;
  day_from = omega arith;
  day_to = omega arith;
}

ymd_hms_to_unix-next_example :
    (ymd_hms_to_unix (next february_29).year (next february_29).month (next february_29).day 12 0 0
      ≡ ymd_hms_to_unix 2024 2 29 12 0 0 +ℤ pos 86400)
    × (ymd_hms_to_unix 1970 1 1 0 0 0 ≡ pos 0)
ymd_hms_to_unix-next_example = ymd_hms_to_unix-next february_29 12 0 0 february_29-IsDate
