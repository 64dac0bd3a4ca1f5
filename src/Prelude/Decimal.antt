-- ===== src/Prelude/Decimal.antt =====
-- Decimal numbers: what `format!` writes and what `str::parse` reads.
use Prim.Native.Nat.{ℕ, zero, suc, ◌+◌, ◌-◌, ◌*◌, ◌/◌, ◌%◌, ◌≤◌, ◌<◌, ◌^◌}
use mathlib.Core.Path.{◌≡◌, refl, ap, ◌∙◌}
use mathlib.Core.Bool.{true, ◌&&◌}
use mathlib.Core.List.{List, [], ◌∷◌, ◌++◌}
use mathlib.Core.Logic.{inl, inr, ◌≢◌}
use mathlib.Core.Option.{Option, none, some}
use native.Mathlib.Omega.{arith}
use mcp_tools.Prelude.Tests.{ltb, ◌==◌, if◌then◌else◌, Bool-cases, ltb→lt}
use mcp_tools.Prelude.Lists.{all, All, All-append}
use mcp_tools.Prelude.Text.{Str, is_ascii_digit}

-- The decimal value of digits, most significant first, behind the value so far.
unfoldable pub digits_value : ℕ → List ℕ → ℕ
digits_value acc [] = acc
digits_value acc (d ∷ ds) = digits_value (acc * 10 + (d - b'0')) ds

-- The decimal digits of a number, in so many rounds at most.
unfoldable pub decimal_within : ℕ → ℕ → Str
decimal_within zero n = []
decimal_within (suc rounds) n =
    let front = decimal_within rounds (n / 10) in
    if ltb n 10 then (b'0' + n) ∷ [] else front ++ (b'0' + n % 10) ∷ []

-- `{n}`; a number has no more digits than its value, and one.
unfoldable pub decimal : ℕ → Str
unfolding decimal_within
decimal n = decimal_within (suc n) n

-- `str::parse::<usize>` on a 64-bit machine: a plus sign may stand in front.
abbrev pub drop_plus : Str → Str
drop_plus [] = []
drop_plus (c ∷ s) = if c == b'+' then s else c ∷ s

unfoldable pub parse_digits_usize : Str → Option ℕ
unfolding digits_value all is_ascii_digit
parse_digits_usize [] = none
parse_digits_usize (c ∷ s) =
    if all is_ascii_digit (c ∷ s) && ltb (digits_value 0 (c ∷ s)) (2 ^ 64)
    then some (digits_value 0 (c ∷ s))
    else none

unfoldable pub parse_usize : Str → Option ℕ
unfolding parse_digits_usize
parse_usize s = parse_digits_usize (drop_plus s)

abbrev pub digit : ℕ → ℕ
digit d = b'0' + d

pub decimal_within-small : (rounds n : ℕ) → n < 10 → decimal_within (suc rounds) n ≡ digit n ∷ []
unfolding decimal_within
decimal_within-small rounds n h = ground arith

pub decimal_within-large :
    (rounds n : ℕ)
    → 10 ≤ n
    → decimal_within (suc rounds) n ≡ decimal_within rounds (n / 10) ++ digit (n % 10) ∷ []
unfolding decimal_within
decimal_within-large rounds n h = ground arith

digits_value-digit : (n : ℕ) → digits_value 0 (digit n ∷ []) ≡ n
unfolding digits_value
digits_value-digit n = omega arith

digits_value-append :
    (acc d : ℕ) (ds : List ℕ)
    → digits_value acc (ds ++ d ∷ []) ≡ digits_value acc ds * 10 + (d - b'0')
unfolding digits_value
digits_value-append acc d [] = refl
digits_value-append acc d (e ∷ ds) = digits_value-append (acc * 10 + (e - b'0')) d ds

pub digits_value-decimal_within :
    (rounds n : ℕ) → n < rounds → digits_value 0 (decimal_within rounds n) ≡ n
digits_value-decimal_within zero n h = absurd (omega arith)
digits_value-decimal_within (suc rounds) n h = elim (Bool-cases (ltb n 10)) [
  | inl small ↦
      ap (digits_value 0) (decimal_within-small rounds n (ltb→lt _ _ small)) ∙ digits_value-digit n
  | inr large ↦
      let ih = digits_value-decimal_within rounds (n / 10) (ground arith) in
      ap (digits_value 0) (decimal_within-large rounds n (ground arith))
      ∙ (digits_value-append 0 (digit (n % 10)) (decimal_within rounds (n / 10))
          ∙ omega (arith, ih))
]

abbrev pub IsDigit : ℕ → Type 0
IsDigit c = (b'0' ≤ c) × (c ≤ b'9')

pub IsDigit-decimal_within : (rounds n : ℕ) → All IsDigit (decimal_within rounds n)
unfolding decimal_within
IsDigit-decimal_within zero n = tt
IsDigit-decimal_within (suc rounds) n = elim (Bool-cases (ltb n 10)) [
  | inl small ↦ rw small (ground arith)
  | inr large ↦ rw large (
      All-append IsDigit (decimal_within rounds (n / 10)) (digit (n % 10) ∷ [])
        (IsDigit-decimal_within rounds (n / 10)) (omega arith))
]

pub all-digits : (s : Str) → All IsDigit s → all is_ascii_digit s ≡ true
unfolding all is_ascii_digit
all-digits [] h = refl
all-digits (c ∷ s) h = ground (arith, all-digits s h.1)

parse_usize-digits :
    (s : Str) (n : ℕ)
    → All IsDigit s
    → s ≢ []
    → digits_value 0 s ≡ n
    → n < 2 ^ 64
    → parse_usize s ≡ some n
unfolding parse_usize
parse_usize-digits [] n d ne e h = absurd (ne refl)
parse_usize-digits (c ∷ s) n d ne e h = ground (arith, all-digits (c ∷ s))

append-ne-nil : (s : Str) (c : ℕ) → s ++ c ∷ [] ≢ []
append-ne-nil [] c e = cc
append-ne-nil (d ∷ s) c e = cc

pub decimal-ne-nil : (n : ℕ) → decimal n ≢ []
unfolding decimal
decimal-ne-nil n = elim (Bool-cases (ltb n 10)) [
  | inl small ↦ rw small (λ e. cc)
  | inr large ↦ rw large (append-ne-nil (decimal_within n (n / 10)) (digit (n % 10)))
]

-- A number that fits reads back.
pub parse_usize-decimal : (n : ℕ) → n < 2 ^ 64 → parse_usize (decimal n) ≡ some n
unfolding decimal
parse_usize-decimal n h =
    parse_usize-digits (decimal n) n (IsDigit-decimal_within (suc n) n) (decimal-ne-nil n)
      (digits_value-decimal_within (suc n) n (omega arith)) h

pub IsDigit-decimal : (n : ℕ) → All IsDigit (decimal n)
unfolding decimal
IsDigit-decimal n = IsDigit-decimal_within (suc n) n
