-- ===== src/Prelude/Signed.antt =====
-- Signed decimal numbers: what `format!` writes of an `i32` and what `str::parse::<i32>` reads.
use Prim.Native.Nat.{ℕ, suc, ◌-◌, ◌<◌, ◌^◌}
use mathlib.Core.Path.{◌≡◌, refl}
use mathlib.Core.List.{[], ◌∷◌}
use mathlib.Core.Logic.{◌≢◌}
use mathlib.Core.Option.{Option, none, some}
use native.Mathlib.Omega.{arith}
use mcp_tools.Prelude.Tests.{ltb, leb, ◌==◌, if◌then◌else◌}
use mcp_tools.Prelude.Lists.{all, All}
use mcp_tools.Prelude.Text.{Str, is_ascii_digit}
use mcp_tools.Prelude.Int.{ℤ, pos, negsuc}
use mcp_tools.Prelude.Decimal.{
  digits_value, decimal, drop_plus, decimal-ne-nil, IsDigit, IsDigit-decimal,
  IsDigit-decimal_within, digits_value-decimal_within, all-digits,
}

-- `{n}` of a signed number
unfoldable pub decimal_ℤ : ℤ → Str
decimal_ℤ (pos n) = decimal n
decimal_ℤ (negsuc n) = b'-' ∷ decimal (suc n)

-- `str::parse::<i32>`
digits_of : Str → Option ℕ
unfolding digits_value all is_ascii_digit
digits_of [] = none
digits_of (c ∷ s) = if all is_ascii_digit (c ∷ s) then some (digits_value 0 (c ∷ s)) else none

positive_i32 : Option ℕ → Option ℤ
positive_i32 none = none
positive_i32 (some n) = if ltb n (2 ^ 31) then some (pos n) else none

negative_i32 : Option ℕ → Option ℤ
negative_i32 none = none
negative_i32 (some n) =
    if n == 0 then some (pos 0) else if leb n (2 ^ 31) then some (negsuc (n - 1)) else none

unfoldable pub parse_i32 : Str → Option ℤ
unfolding digits_of positive_i32 negative_i32
parse_i32 [] = none
parse_i32 (c ∷ s) =
    if c == b'-' then negative_i32 (digits_of s) else positive_i32 (digits_of (drop_plus (c ∷ s)))

-- The values of an `i32`.
abbrev pub IsI32 : ℤ → Type 0
IsI32 (pos n) = n < 2 ^ 31
IsI32 (negsuc n) = n < 2 ^ 31

digits_of-digits :
    (s : Str) (n : ℕ) → All IsDigit s → s ≢ [] → digits_value 0 s ≡ n → digits_of s ≡ some n
unfolding digits_of
digits_of-digits [] n d ne e = absurd (ne refl)
digits_of-digits (c ∷ s) n d ne e = ground (arith, all-digits (c ∷ s))

digits_of-decimal : (n : ℕ) → digits_of (decimal n) ≡ some n
unfolding decimal
digits_of-decimal n =
    digits_of-digits (decimal n) n (IsDigit-decimal_within (suc n) n) (decimal-ne-nil n)
      (digits_value-decimal_within (suc n) n (omega arith))

digits_of-nil : (n : ℕ) → digits_of [] ≢ some n
unfolding digits_of
digits_of-nil n e = cc

parse_i32-digits :
    (s : Str) (n : ℕ)
    → All IsDigit s
    → digits_of s ≡ some n
    → n < 2 ^ 31
    → parse_i32 s ≡ some (pos n)
unfolding parse_i32 positive_i32
parse_i32-digits [] n d e h = absurd (digits_of-nil n e)
parse_i32-digits (c ∷ s) n d e h = ground arith

parse_i32-negative : (n : ℕ) → n < 2 ^ 31 → parse_i32 (b'-' ∷ decimal (suc n)) ≡ some (negsuc n)
unfolding parse_i32 negative_i32
parse_i32-negative n h = rw (digits_of-decimal (suc n)) (ground arith)

-- Every number of an `i32` reads back.
pub parse_i32-decimal_ℤ : (code : ℤ) → IsI32 code → parse_i32 (decimal_ℤ code) ≡ some code
unfolding decimal_ℤ
parse_i32-decimal_ℤ (pos n) h =
    parse_i32-digits (decimal n) n (IsDigit-decimal n) (digits_of-decimal n) h
parse_i32-decimal_ℤ (negsuc n) h = parse_i32-negative n h
