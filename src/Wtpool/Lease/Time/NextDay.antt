-- ===== src/Wtpool/Lease/Time/NextDay.antt =====
-- `ymd_hms_to_unix` against the calendar rules: it counts days one by one from 1970-01-01.
use mcp_tools.Prelude.{
  ℕ, ◌+◌, ◌-◌, ◌*◌, ◌/◌, ◌%◌, ◌≤◌, ◌<◌, ◌≡◌, ◌≢◌, refl, Bool-cases, inl, inr, ltb→lt, arith, ltb,
  leb, ◌==◌, if◌then◌else◌,
}
use mcp_tools.Prelude.Int.{
  div_euclid, ◌*ℤ◌, pos, ◌+ℤ◌, ◌-ℤ◌, +ℤ-pos, -ℤ-pos, *ℤ-pos, div_euclid-pos, int_laws,
}
use mcp_tools.Wtpool.Lease.Time.{
  is_leap, days_in_month, day_of_year, days_from_civil, ymd_hms_to_unix,
}

pub record Date : Type 0 where
  pub year : ℕ
  pub month : ℕ
  pub day : ℕ

pub record IsDate (t : Date) : Type 0 where
  pub year_from : 1 ≤ t.year
  pub month_from : 1 ≤ t.month
  pub month_to : t.month ≤ 12
  pub day_from : 1 ≤ t.day
  pub day_to : t.day ≤ days_in_month t.year t.month

-- The day after, by the rules of the calendar.
abbrev pub next : Date → Date
next t =
    if ltb t.day (days_in_month t.year t.month)
    then record t { day = t.day + 1 }
    else if ltb t.month 12
    then record t { month = t.month + 1; day = 1 }
    else record { year = t.year + 1; month = 1; day = 1 }

day_of_year-suc : (m d : ℕ) → 1 ≤ d → day_of_year m (d + 1) ≡ day_of_year m d + 1
unfolding day_of_year
day_of_year-suc m d h = omega arith

-- But for February, a month ends where the next one begins.
day_of_year-month_end :
    (y m : ℕ)
    → 1 ≤ m
    → m < 12
    → m ≢ 2
    → day_of_year (m + 1) 1 ≡ day_of_year m (days_in_month y m) + 1
unfolding day_of_year days_in_month
day_of_year-month_end y m lo hi ne = ground arith

-- The day number of a day of a March year.
abbrev number : ℕ → ℕ → ℕ
number y day = y / 400 * 146097 + (y % 400 * 365 + y % 400 / 4 - y % 400 / 100 + day)

number-year_end : (y : ℕ) → number (y + 1) 0 ≡ number y (if is_leap (y + 1) then 365 else 364) + 1
unfolding is_leap
number-year_end y = ground arith

march_year : ℕ → ℕ → ℕ
march_year y m = if leb m 2 then y - 1 else y

-- The day number of a date, with the year counted from March.
day_number : Date → ℕ
unfolding march_year
day_number t = number (march_year t.year t.month) (day_of_year t.month t.day)

february_end :
    (y : ℕ)
    → 1 ≤ y
    → number y (day_of_year 3 1) ≡ number (y - 1) (day_of_year 2 (days_in_month y 2)) + 1
unfolding day_of_year days_in_month
february_end y h =
    let year : y - 1 + 1 ≡ y = omega arith in
    let last : (if is_leap y then 365 else 364) ≡ day_of_year 2 (days_in_month y 2) =
      ground arith in
    rw (← last) (rw year at (number-year_end (y - 1)))

month_end :
    (y m : ℕ)
    → 1 ≤ y
    → 1 ≤ m
    → m < 12
    → number (march_year y (m + 1)) (day_of_year (m + 1) 1)
      ≡ number (march_year y m) (day_of_year m (days_in_month y m)) + 1
unfolding march_year
month_end y m h lo hi = elim (Bool-cases (m == 2)) [
  | inl february ↦ let e : m ≡ 2 = ground arith in rw e (february_end y h)
  | inr other ↦
      let same : march_year y (m + 1) ≡ march_year y m = ground arith in
      omega (arith, same, day_of_year-month_end y m lo hi (ground arith))
]

year_end :
    (y : ℕ)
    → 1 ≤ y
    → number (march_year (y + 1) 1) (day_of_year 1 1)
      ≡ number (march_year y 12) (day_of_year 12 (days_in_month y 12)) + 1
unfolding march_year day_of_year days_in_month
year_end y h = ground arith

day_number-next : (t : Date) → IsDate t → day_number (next t) ≡ day_number t + 1
unfolding day_number
day_number-next t v = elim (Bool-cases (ltb t.day (days_in_month t.year t.month))) [
  | inl within ↦ rw within (omega (arith, day_of_year-suc t.month t.day v.day_from))
  | inr last ↦
      let full : t.day ≡ days_in_month t.year t.month = ground arith in
      elim (Bool-cases (ltb t.month 12)) [
        | inl earlier ↦
            rw (last, earlier, full)
              (month_end t.year t.month v.year_from v.month_from (ltb→lt _ _ earlier))
        | inr december ↦
            let e : t.month ≡ 12 = ground arith in
            rw (last, december, full, e) (year_end t.year v.year_from)
      ]
]

march_year_lem :
    (y m : ℕ) → 1 ≤ y → (if leb m 2 then pos y -ℤ pos 1 else pos y) ≡ pos (march_year y m)
unfolding march_year
march_year_lem y m h = elim (Bool-cases (leb m 2)) [
  | inl early ↦ rw early (-ℤ-pos y 1 h)
  | inr late ↦ rw late
]

days_from_civil-number :
    (t : Date) → IsDate t → days_from_civil t.year t.month t.day ≡ pos (day_number t) -ℤ pos 719468
unfolding days_from_civil day_number
days_from_civil-number t v =
    let y : ℕ = march_year t.year t.month in
    let doe : ℕ = y % 400 * 365 + y % 400 / 4 - y % 400 / 100 + day_of_year t.month t.day in
    let yoe : y - y / 400 * 400 ≡ y % 400 = omega arith in
    rw (
      march_year_lem t.year t.month v.year_from,
      div_euclid-pos y 400,
      *ℤ-pos (y / 400) 400,
      -ℤ-pos y (y / 400 * 400) (omega arith),
      yoe,
      *ℤ-pos (y / 400) 146097,
      +ℤ-pos (y / 400 * 146097) doe,
    )

days_in_month-pos : (y m : ℕ) → 1 ≤ m → m ≤ 12 → 1 ≤ days_in_month y m
unfolding days_in_month
days_in_month-pos y m lo hi = ground arith

next-IsDate : (t : Date) → IsDate t → IsDate (next t)
next-IsDate t v =
    ground (arith, days_in_month-pos t.year (t.month + 1), days_in_month-pos (t.year + 1) 1)

epoch : ymd_hms_to_unix 1970 1 1 0 0 0 ≡ pos 0
unfolding ymd_hms_to_unix days_from_civil day_of_year ◌+ℤ◌ ◌-ℤ◌ ◌*ℤ◌ div_euclid
epoch = refl

-- From the year 1 on, `ymd_hms_to_unix` follows the calendar: the day after a date, at the same time
-- of day, is 86400 seconds later, and 1970-01-01T00:00:00 is second 0.
pub ymd_hms_to_unix-next :
    (t : Date) (hour minute second : ℕ)
    → IsDate t
    → (ymd_hms_to_unix (next t).year (next t).month (next t).day hour minute second
        ≡ ymd_hms_to_unix t.year t.month t.day hour minute second +ℤ pos 86400)
      × (ymd_hms_to_unix 1970 1 1 0 0 0 ≡ pos 0)
unfolding ymd_hms_to_unix
ymd_hms_to_unix-next t hour minute second v = (
  rw
      (
        days_from_civil-number (next t) (next-IsDate t v),
        days_from_civil-number t v,
        day_number-next t v,
      )
      (omega int_laws),
  epoch,
)
