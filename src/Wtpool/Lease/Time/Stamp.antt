-- ===== src/Wtpool/Lease/Time/Stamp.antt =====
-- The text that `unix_to_rfc3339` writes, byte by byte, and how `rfc3339_to_unix` reads it.
use mcp_tools.Prelude.{
  ℕ, suc, ◌/◌, ◌%◌, ◌≤◌, ◌<◌, ◌≡◌, refl, true, arith, ap, some, List, [], ◌∷◌, ◌++◌, ltb,
  Bool-cases, ltb→lt, as_bytes-ascii, inl, inr, zero, as_bytes, all, is_ascii_digit,
}
use mcp_tools.Prelude.Decimal.{
  digits_value, decimal_within, decimal, digit, decimal_within-small, decimal_within-large,
}
use mcp_tools.Prelude.Int.{pos, -ℤ-zero}
use mcp_tools.Wtpool.Lease.Time.{
  parse_digits, parse_fields, skip_fraction, parse_timezone, in_range, ymd_hms_to_unix,
  rfc3339_bytes_to_unix, zero_padded,
}

abbrev pub two_digits : ℕ → List ℕ
two_digits n = digit (n / 10) ∷ digit (n % 10) ∷ []

abbrev pub four_digits : ℕ → List ℕ
four_digits n = digit (n / 1000) ∷ digit (n / 100 % 10) ∷ digit (n / 10 % 10) ∷ digit (n % 10) ∷ []

decimal_within-two :
    (rounds n : ℕ) → 10 ≤ n → n < 100 → decimal_within (suc (suc rounds)) n ≡ two_digits n
decimal_within-two rounds n h k =
    rw (decimal_within-large (suc rounds) n h)
      (ap (λ s. s ++ digit (n % 10) ∷ []) (decimal_within-small rounds (n / 10) (omega arith)))

decimal_within-three :
    (rounds n : ℕ)
    → 100 ≤ n
    → n < 1000
    → decimal_within (suc (suc (suc rounds))) n ≡ two_digits (n / 10) ++ digit (n % 10) ∷ []
decimal_within-three rounds n h k = rw (decimal_within-large (suc (suc rounds)) n (omega arith)) (
    ap (λ s. s ++ digit (n % 10) ∷ [])
      (decimal_within-two rounds (n / 10) (omega arith) (omega arith)))

decimal_within-four :
    (rounds n : ℕ)
    → 1000 ≤ n
    → n < 10000
    → decimal_within (suc (suc (suc (suc rounds)))) n
      ≡ (two_digits (n / 10 / 10) ++ digit (n / 10 % 10) ∷ []) ++ digit (n % 10) ∷ []
decimal_within-four rounds n h k =
    rw (decimal_within-large (suc (suc (suc rounds))) n (omega arith)) (
      ap (λ s. s ++ digit (n % 10) ∷ [])
        (decimal_within-three rounds (n / 10) (omega arith) (omega arith)))

zero_padded-two_rounds :
    (rounds n : ℕ)
    → n < 100
    → decimal n ≡ decimal_within (suc (suc rounds)) n
    → zero_padded 2 n ≡ two_digits n
unfolding zero_padded
zero_padded-two_rounds rounds n h e = elim (Bool-cases (ltb n 10)) [
  | inl small ↦ rw (e, decimal_within-small (suc rounds) n (ltb→lt _ _ small)) (ground arith)
  | inr large ↦ rw (e, decimal_within-two rounds n (ground arith) h)
]

pub zero_padded-two : (n : ℕ) → n < 100 → zero_padded 2 n ≡ two_digits n
unfolding decimal zero_padded decimal_within
zero_padded-two zero h = refl
zero_padded-two (suc m) h = zero_padded-two_rounds m (suc m) h refl

zero_padded-four_rounds :
    (rounds n : ℕ)
    → n < 10000
    → decimal n ≡ decimal_within (suc (suc (suc (suc rounds)))) n
    → zero_padded 4 n ≡ four_digits n
unfolding zero_padded
zero_padded-four_rounds rounds n h e = elim (Bool-cases (ltb n 10)) [
  | inl one ↦
      rw (e, decimal_within-small (suc (suc (suc rounds))) n (ltb→lt _ _ one)) (ground arith)
  | inr one ↦ elim (Bool-cases (ltb n 100)) [
    | inl two ↦
        rw (e, decimal_within-two (suc (suc rounds)) n (ground arith) (ltb→lt _ _ two))
          (ground arith)
    | inr two ↦ elim (Bool-cases (ltb n 1000)) [
      | inl three ↦
          rw (e, decimal_within-three (suc rounds) n (ground arith) (ltb→lt _ _ three))
            (ground arith)
      | inr three ↦ rw (e, decimal_within-four rounds n (ground arith) h) (ground arith)
    ]
  ]
]

pub zero_padded-four : (n : ℕ) → n < 10000 → zero_padded 4 n ≡ four_digits n
unfolding decimal zero_padded decimal_within
zero_padded-four zero h = refl
zero_padded-four (suc zero) h = refl
zero_padded-four (suc (suc zero)) h = refl
zero_padded-four (suc (suc (suc m))) h = zero_padded-four_rounds m (suc (suc (suc m))) h refl

pub parse_digits-two : (n : ℕ) → n < 100 → parse_digits (two_digits n) ≡ some n
unfolding parse_digits all is_ascii_digit digits_value
parse_digits-two n h = ground arith

pub parse_digits-four : (n : ℕ) → n < 10000 → parse_digits (four_digits n) ≡ some n
unfolding parse_digits all is_ascii_digit digits_value
parse_digits-four n h = ground arith

-- The twenty bytes of `YYYY-MM-DDTHH:MM:SSZ`.
abbrev pub stamp : ℕ → ℕ → ℕ → ℕ → ℕ → ℕ → List ℕ
stamp year month day hour minute second =
    digit (year / 1000)
    ∷ digit (year / 100 % 10)
    ∷ digit (year / 10 % 10)
    ∷ digit (year % 10)
    ∷ b'-'
    ∷ digit (month / 10)
    ∷ digit (month % 10)
    ∷ b'-'
    ∷ digit (day / 10)
    ∷ digit (day % 10)
    ∷ b'T'
    ∷ digit (hour / 10)
    ∷ digit (hour % 10)
    ∷ b':'
    ∷ digit (minute / 10)
    ∷ digit (minute % 10)
    ∷ b':'
    ∷ digit (second / 10)
    ∷ digit (second % 10)
    ∷ b'Z'
    ∷ []

parse_fields-stamp :
    (year month day hour minute second : ℕ)
    → year < 10000
    → month < 100
    → day < 100
    → hour < 100
    → minute < 100
    → second < 100
    → parse_fields (stamp year month day hour minute second)
      ≡ some (year, month, day, hour, minute, second)
unfolding parse_fields
parse_fields-stamp year month day hour minute second y mo d h mi s = rw (
  parse_digits-four year y,
  parse_digits-two month mo,
  parse_digits-two day d,
  parse_digits-two hour h,
  parse_digits-two minute mi,
  parse_digits-two second s,
)

skip_fraction-stamp :
    (year month day hour minute second : ℕ)
    → skip_fraction (stamp year month day hour minute second) ≡ some 19
unfolding skip_fraction
skip_fraction-stamp year month day hour minute second = refl

parse_timezone-stamp :
    (year month day hour minute second : ℕ)
    → parse_timezone (stamp year month day hour minute second) 19 ≡ some (pos 0)
unfolding parse_timezone
parse_timezone-stamp year month day hour minute second = refl

pub rfc3339_bytes_to_unix-stamp :
    (year month day hour minute second : ℕ)
    → year < 10000
    → month < 100
    → day < 100
    → in_range year month day hour minute second ≡ true
    → hour < 100
    → minute < 100
    → second < 100
    → rfc3339_bytes_to_unix (stamp year month day hour minute second)
      ≡ some (ymd_hms_to_unix year month day hour minute second)
unfolding rfc3339_bytes_to_unix
rfc3339_bytes_to_unix-stamp year month day hour minute second y mo d range h mi s = rw (
  parse_fields-stamp year month day hour minute second y mo d h mi s,
  skip_fraction-stamp year month day hour minute second,
  parse_timezone-stamp year month day hour minute second,
  range,
  -ℤ-zero,
)

pub as_bytes-stamp :
    (year month day hour minute second : ℕ)
    → year < 10000
    → month < 100
    → day < 100
    → hour < 100
    → minute < 100
    → second < 100
    → as_bytes (stamp year month day hour minute second) ≡ stamp year month day hour minute second
as_bytes-stamp year month day hour minute second y mo d h mi s = as_bytes-ascii _ (omega arith)
