-- ===== src/Wtpool/Lease/Time.antt =====
-- The RFC 3339 reader and writer of wtpool/src/lease.rs. Bytes are indexed by `byte_at`, which the
-- reader calls only behind its tests of the length. An `i64` is a ℤ: a year that is read has four
-- digits, so no value comes near the ends of 64 bits.
pub mod Calendar
pub mod Stamp
pub mod RoundTrip
pub mod NextDay
use mcp_tools.Prelude.{
  ℕ, zero, suc, ◌+◌, ◌-◌, ◌*◌, ◌/◌, ◌%◌, Bool, true, false, not, ◌&&◌, ◌||◌, Option, none, some,
  List, [], ◌∷◌, ◌++◌, ltb, leb, ◌==◌, if◌then◌else◌, length, get_or, take, drop, replicate, all,
  Str, as_bytes, is_ascii_digit,
}
use mcp_tools.Prelude.Decimal.{digits_value, decimal}
use mcp_tools.Prelude.Int.{ℤ, pos, negsuc, pos_part, ◌+ℤ◌, ◌-ℤ◌, ◌*ℤ◌, div_euclid, rem_euclid}

infixl 5 ◌>>=◌ ◌>>◌
abbrev pub ◌>>=◌ {ℓ κ} : {A : Type ℓ} {B : Type κ} → Option A → (A → Option B) → Option B
none >>= f = none
some a >>= f = f a

abbrev pub ◌>>◌ {ℓ} : {B : Type ℓ} → Option (Unit {0}) → Option B → Option B
m >> k = m >>= λ _. k

-- `if !test { return None; }`
abbrev pub require : Bool → Option (Unit {0})
require true = some tt
require false = none

abbrev pub byte_at : List ℕ → ℕ → ℕ
byte_at bytes i = get_or bytes i 0

-- `&bytes[from..to]`
abbrev pub slice : List ℕ → ℕ → ℕ → List ℕ
slice bytes from to = take (to - from) (drop from bytes)

-- Digits alone are read; `str::parse` refuses the empty text.
unfoldable pub parse_digits : List ℕ → Option ℕ
unfolding all is_ascii_digit digits_value
parse_digits [] = none
parse_digits (c ∷ b) = if all is_ascii_digit (c ∷ b) then some (digits_value 0 (c ∷ b)) else none

unfoldable pub is_leap : ℕ → Bool
is_leap year = (year % 4 == 0 && not (year % 100 == 0)) || (year % 400 == 0)

unfoldable pub days_in_month : ℕ → ℕ → ℕ
unfolding is_leap
days_in_month year month =
    if (month == 1)
      || (month == 3)
      || (month == 5)
      || (month == 7)
      || (month == 8)
      || (month == 10)
      || (month == 12)
    then 31
    else if (month == 4) || (month == 6) || (month == 9) || (month == 11)
    then 30
    else if month == 2
    then (if is_leap year then 29 else 28)
    else 0

-- `doy`, counted from the first of March
unfoldable pub day_of_year : ℕ → ℕ → ℕ
day_of_year m d = (153 * (if ltb 2 m then m - 3 else m + 9) + 2) / 5 + d - 1

-- `y - era * 400` is not negative, so `as u64` keeps it.
unfoldable pub days_from_civil : ℕ → ℕ → ℕ → ℤ
days_from_civil year month day =
    let y = if leb month 2 then pos year -ℤ pos 1 else pos year in
    let era = div_euclid y 400 in
    let yoe = pos_part (y -ℤ era *ℤ 400) in
    let doe = yoe * 365 + yoe / 4 - yoe / 100 + day_of_year month day in
    era *ℤ 146097 +ℤ pos doe -ℤ pos 719468

-- The fields are `i64` and `u32` in the program; the parser, the only caller, passes the four digits of a
-- year and two of each other field, for which nothing here leaves 64 bits.
unfoldable pub ymd_hms_to_unix : ℕ → ℕ → ℕ → ℕ → ℕ → ℕ → ℤ
ymd_hms_to_unix year month day hour minute second =
    days_from_civil year month day *ℤ 86400 +ℤ pos (hour * 3600) +ℤ pos (minute * 60) +ℤ pos second

-- How many digits come first: the rounds of the `while` loop over fractional seconds.
unfoldable pub count_digits : List ℕ → ℕ
unfolding is_ascii_digit
count_digits [] = 0
count_digits (c ∷ b) = let more = count_digits b in if is_ascii_digit c then suc more else 0

unfoldable pub skip_fraction : List ℕ → Option ℕ
unfolding count_digits
skip_fraction bytes =
    if ltb 19 (length bytes) && (byte_at bytes 19 == b'.')
    then (let digits = count_digits (drop 20 bytes) in
        if digits == 0 then none else some (20 + digits))
    else some 19

unfoldable pub parse_offset : List ℕ → ℕ → Option ℕ
unfolding parse_digits
parse_offset bytes idx = do
  require ((idx + 6 == length bytes) && (byte_at bytes (idx + 3) == b':'))
  oh ← parse_digits (slice bytes (idx + 1) (idx + 3))
  om ← parse_digits (slice bytes (idx + 4) (idx + 6))
  some (oh * 3600 + om * 60)

unfoldable pub parse_timezone : List ℕ → ℕ → Option ℤ
unfolding parse_offset
parse_timezone bytes idx =
    let sign = byte_at bytes idx in
    if (sign == b'Z') || (sign == b'z')
    then (do require (idx + 1 == length bytes); some (pos 0))
    else if sign == b'+'
    then (do total ← parse_offset bytes idx; some (pos total))
    else if sign == b'-'
    then (do total ← parse_offset bytes idx; some (pos 0 -ℤ pos total))
    else none

-- The month, the day, and the time of day are in range.
unfoldable pub in_range : ℕ → ℕ → ℕ → ℕ → ℕ → ℕ → Bool
unfolding days_in_month
in_range year month day hour minute second =
    (leb 1 month && leb month 12)
    && (leb 1 day && leb day (days_in_month year month))
    && not (ltb 23 hour || ltb 59 minute || ltb 59 second)

-- The nineteen bytes before the fraction and the time zone.
unfoldable pub parse_fields : List ℕ → Option (ℕ × ℕ × ℕ × ℕ × ℕ × ℕ)
parse_fields bytes = do
  year ← parse_digits (slice bytes 0 4)
  require (byte_at bytes 4 == b'-')
  month ← parse_digits (slice bytes 5 7)
  require (byte_at bytes 7 == b'-')
  day ← parse_digits (slice bytes 8 10)
  require ((byte_at bytes 10 == b'T') || (byte_at bytes 10 == b't'))
  hour ← parse_digits (slice bytes 11 13)
  require (byte_at bytes 13 == b':')
  minute ← parse_digits (slice bytes 14 16)
  require (byte_at bytes 16 == b':')
  second ← parse_digits (slice bytes 17 19)
  some (year, month, day, hour, minute, second)

unfoldable pub rfc3339_bytes_to_unix : List ℕ → Option ℤ
rfc3339_bytes_to_unix bytes = do
  require (not (ltb (length bytes) 20))
  (year, month, day, hour, minute, second) ← parse_fields bytes
  idx ← skip_fraction bytes
  require (ltb idx (length bytes))
  tz_offset_secs ← parse_timezone bytes idx
  require (in_range year month day hour minute second)
  some (ymd_hms_to_unix year month day hour minute second -ℤ tz_offset_secs)

unfoldable pub rfc3339_to_unix : Str → Option ℤ
rfc3339_to_unix s = rfc3339_bytes_to_unix (as_bytes s)

unfoldable pub is_valid_rfc3339 : Str → Bool
is_valid_rfc3339 s = elim (rfc3339_to_unix s) [ none ↦ false | some _ ↦ true ]

-- `{n:0width}`
unfoldable pub zero_padded : ℕ → ℕ → Str
zero_padded width n = let digits = decimal n in replicate (width - length digits) b'0' ++ digits

-- For a negative number the sign counts towards the width.
unfoldable pub zero_padded_ℤ : ℕ → ℤ → Str
zero_padded_ℤ width (pos n) = zero_padded width n
zero_padded_ℤ width (negsuc n) = b'-' ∷ zero_padded (width - 1) (suc n)

pub record Civil : Type 0 where
  pub year : ℤ
  pub month : ℕ
  pub day : ℕ

-- Year and day of an era, from the day of the era.
unfoldable pub year_of_era : ℕ → ℕ
year_of_era doe = (doe - doe / 1460 + doe / 36524 - doe / 146096) / 365

-- The date of a day of an era.
unfoldable pub civil_of_era : ℤ → ℕ → Civil
unfolding year_of_era
civil_of_era era doe =
    let yoe = year_of_era doe in
    let y = pos yoe +ℤ era *ℤ 400 in
    let doy = doe - (365 * yoe + yoe / 4 - yoe / 100) in
    let mp = (5 * doy + 2) / 153 in
    let day = doy - (153 * mp + 2) / 5 + 1 in
    let month = if ltb mp 10 then mp + 3 else mp - 9 in
    record { year = if leb month 2 then y +ℤ pos 1 else y; month = month; day = day }

unfoldable pub civil_from_days : ℤ → Civil
unfolding civil_of_era
civil_from_days days =
    let z = days +ℤ pos 719468 in
    let era = div_euclid z 146097 in let doe = pos_part (z -ℤ era *ℤ 146097) in civil_of_era era doe

unfoldable pub unix_to_rfc3339 : ℤ → Str
unfolding zero_padded_ℤ
unix_to_rfc3339 unix_secs =
    let civil = civil_from_days (div_euclid unix_secs 86400) in
    let secs_of_day = rem_euclid unix_secs 86400 in
    zero_padded_ℤ 4 civil.year
    ++ (b'-' ∷ zero_padded 2 civil.month
        ++ (b'-' ∷ zero_padded 2 civil.day
            ++ (b'T' ∷ zero_padded 2 (secs_of_day / 3600)
                ++ (b':' ∷ zero_padded 2 (secs_of_day % 3600 / 60)
                    ++ (b':' ∷ zero_padded 2 (secs_of_day % 60) ++ (b'Z' ∷ []))))))
