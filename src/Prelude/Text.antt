-- ===== src/Prelude/Text.antt =====
-- Rust's `&str` and `String` as lists of code points, with the operations of the standard library
-- that the program uses. `as_bytes` is the UTF-8 encoding, so `len` counts bytes as `str::len` does.
use Prim.Native.Nat.{ℕ, ◌+◌, ◌/◌, ◌%◌, ◌<◌}
use Prim.Native.Char.{code}
use Prim.Native.String.{String}
use mathlib.Core.Path.{◌≡◌, refl}
use mathlib.Core.Logic.{◌↔◌}
use mathlib.Core.Bool.{Bool, true, false, ◌&&◌, ◌||◌}
use mathlib.Core.Option.{Option, none, some}
use mathlib.Core.List.{List, [], ◌∷◌, ◌++◌}
use native.Mathlib.Omega.{arith}
use mcp_tools.Prelude.Tests.{ltb, leb, ◌==◌, if◌then◌else◌}
use mcp_tools.Prelude.Lists.{length, is_empty, All}

abbrev pub Str : Type 0
Str = List ℕ

abbrev pub str : String → Str
str String.[] = []
str (String.◌∷◌ c s) = code c ∷ str s

utf8 : ℕ → List ℕ
utf8 c =
    if ltb c 0x80
    then c ∷ []
    else if ltb c 0x800
    then (0xC0 + c / 64) ∷ (0x80 + c % 64) ∷ []
    else if ltb c 0x10000
    then (0xE0 + c / 4096) ∷ (0x80 + c / 64 % 64) ∷ (0x80 + c % 64) ∷ []
    else (0xF0 + c / 262144) ∷ (0x80 + c / 4096 % 64) ∷ (0x80 + c / 64 % 64) ∷ (0x80 + c % 64) ∷ []

unfoldable pub as_bytes : Str → List ℕ
unfolding utf8
as_bytes [] = []
as_bytes (c ∷ s) = utf8 c ++ as_bytes s

unfoldable pub len : Str → ℕ
unfolding as_bytes
len s = length (as_bytes s)

unfoldable pub str_eq : Str → Str → Bool
str_eq [] [] = true
str_eq (a ∷ s) (b ∷ t) = a == b && str_eq s t
str_eq _ _ = false

pub str_eq_iff : (s t : Str) → (str_eq s t ≡ true) ↔ (s ≡ t)
unfolding str_eq
str_eq_iff [] [] = (λ h. refl, λ h. refl)
str_eq_iff [] (b ∷ t) = ground arith
str_eq_iff (a ∷ s) [] = ground arith
str_eq_iff (a ∷ s) (b ∷ t) = ground (arith, str_eq_iff s t)

pub str_eq_refl : (s : Str) → str_eq s s ≡ true
str_eq_refl s = (str_eq_iff s s).1 refl

unfoldable pub strip_prefix : Str → Str → Option Str
strip_prefix [] s = some s
strip_prefix (p ∷ ps) [] = none
strip_prefix (p ∷ ps) (c ∷ s) = if p == c then strip_prefix ps s else none

unfoldable pub starts_with : Str → Str → Bool
starts_with [] s = true
starts_with (p ∷ ps) [] = false
starts_with (p ∷ ps) (c ∷ s) = p == c && starts_with ps s

unfoldable pub contains : Str → Str → Bool
unfolding starts_with
contains sub [] = is_empty sub
contains sub (c ∷ s) = starts_with sub (c ∷ s) || contains sub s

-- `char::is_whitespace`: the code points with the Unicode property White_Space
unfoldable pub is_whitespace : ℕ → Bool
is_whitespace c =
    (leb 9 c && leb c 13)
    || (c == 32)
    || (c == 0x85)
    || (c == 0xA0)
    || (c == 0x1680)
    || (leb 0x2000 c && leb c 0x200A)
    || (c == 0x2028)
    || (c == 0x2029)
    || (c == 0x202F)
    || (c == 0x205F)
    || (c == 0x3000)

unfoldable pub trim_start_matches : (ℕ → Bool) → Str → Str
trim_start_matches p [] = []
trim_start_matches p (c ∷ s) = if p c then trim_start_matches p s else c ∷ s

-- A character that matches is dropped if nothing is left behind it.
keep_before : (ℕ → Bool) → ℕ → Str → Str
keep_before p c [] = if p c then [] else c ∷ []
keep_before p c (d ∷ s) = c ∷ d ∷ s

unfoldable pub trim_end_matches : (ℕ → Bool) → Str → Str
unfolding keep_before
trim_end_matches p [] = []
trim_end_matches p (c ∷ s) = keep_before p c (trim_end_matches p s)

unfoldable pub trim_start : Str → Str
unfolding trim_start_matches is_whitespace
trim_start = trim_start_matches is_whitespace

unfoldable pub trim_end : Str → Str
unfolding trim_end_matches is_whitespace
trim_end = trim_end_matches is_whitespace

unfoldable pub trim : Str → Str
unfolding trim_start trim_end
trim s = trim_start (trim_end s)

unfoldable pub is_ascii_digit : ℕ → Bool
is_ascii_digit c = leb b'0' c && leb c b'9'

unfoldable pub is_ascii_lowercase : ℕ → Bool
is_ascii_lowercase c = leb b'a' c && leb c b'z'

unfoldable pub is_ascii_alphanumeric : ℕ → Bool
unfolding is_ascii_digit is_ascii_lowercase
is_ascii_alphanumeric c = is_ascii_digit c || is_ascii_lowercase c || (leb b'A' c && leb c b'Z')

-- Puts a character in front of the first piece.
abbrev pub cons_head : ℕ → List Str → List Str
cons_head c [] = (c ∷ []) ∷ []
cons_head c (p ∷ ps) = (c ∷ p) ∷ ps

-- `s.split(|c| p(c))`: always at least one piece, and the separators are dropped.
unfoldable pub split_by : (ℕ → Bool) → Str → List Str
split_by p [] = [] ∷ []
split_by p (c ∷ s) = let pieces = split_by p s in if p c then [] ∷ pieces else cons_head c pieces

unfoldable pub split : ℕ → Str → List Str
unfolding split_by
split sep = split_by (λ c. c == sep)

-- `s.split_inclusive('\n')`: each piece but the last ends in a line feed; no empty last piece.
unfoldable pub split_inclusive : Str → List Str
split_inclusive [] = []
split_inclusive (c ∷ s) =
    let lines = split_inclusive s in if c == 10 then (c ∷ []) ∷ lines else cons_head c lines

-- ASCII text is its own encoding.
pub as_bytes-ascii : (s : Str) → All (λ c. c < 128) s → as_bytes s ≡ s
unfolding as_bytes
as_bytes-ascii [] h = refl
as_bytes-ascii (c ∷ s) h = ground (arith, as_bytes-ascii s h.1)

module _ (p : ℕ → Bool) where
  -- Characters that match are all dropped from the end.
  pub trim_end_matches-drop :
      (s t : Str) → All (λ c. p c ≡ true) t → trim_end_matches p (s ++ t) ≡ trim_end_matches p s
  unfolding trim_end_matches
  trim_end_matches-drop [] [] h = refl
  trim_end_matches-drop [] (c ∷ t) h = ground (arith, trim_end_matches-drop [] t h.1)
  trim_end_matches-drop (c ∷ s) t h = ground (arith, trim_end_matches-drop s t h)

  -- A text without characters that match stays.
  pub trim_end_matches-keep : (s : Str) → All (λ c. p c ≡ false) s → trim_end_matches p s ≡ s
  unfolding trim_end_matches
  trim_end_matches-keep [] h = refl
  trim_end_matches-keep (c ∷ []) h = ground arith
  trim_end_matches-keep (c ∷ d ∷ s) h = ground (arith, trim_end_matches-keep (d ∷ s) h.1)

ends_in_slash : Str → Bool
ends_in_slash [] = true
ends_in_slash (c ∷ []) = c == b'/'
ends_in_slash (c ∷ d ∷ s) = ends_in_slash (d ∷ s)

-- `Path::join`: an absolute path takes the place of the directory.
unfoldable pub join_path : Str → Str → Str
unfolding starts_with ends_in_slash
join_path dir path =
    if starts_with (str "/") path
    then path
    else if ends_in_slash dir
    then dir ++ path
    else dir ++ b'/' ∷ path
