-- ===== src/Prelude/Utf8.antt =====
-- The UTF-8 decoder of Rust's `str::from_utf8`: none for a text that is not well formed.
use Prim.Native.Nat.{ℕ, zero, suc, ◌+◌, ◌-◌, ◌*◌, ◌<◌}
use mathlib.Core.Path.{◌≡◌, refl}
use mathlib.Core.Bool.{◌&&◌}
use mathlib.Core.List.{List, [], ◌∷◌}
use mathlib.Core.Option.{Option, none, some}
use native.Mathlib.Omega.{arith}
use mcp_tools.Prelude.Tests.{ltb, leb, ◌==◌, if◌then◌else◌}
use mcp_tools.Prelude.Lists.{All}
use mcp_tools.Prelude.Text.{Str, str, as_bytes}

-- How a character begins: the continuation bytes to come, the range of the first of them, and the
-- bits so far.
pub record Lead : Type 0 where
  pub more : ℕ
  pub low : ℕ
  pub high : ℕ
  pub bits : ℕ

abbrev lead_byte : ℕ → Option Lead
lead_byte b =
    if leb 0xC2 b && leb b 0xDF
    then some (record { more = 1; low = 0x80; high = 0xBF; bits = b - 0xC0 })
    else if leb 0xE0 b && leb b 0xEF
    then some (record {
      more = 2;
      low = if b == 0xE0 then 0xA0 else 0x80;
      high = if b == 0xED then 0x9F else 0xBF;
      bits = b - 0xE0;
    })
    else if leb 0xF0 b && leb b 0xF4
    then some (record {
      more = 3;
      low = if b == 0xF0 then 0x90 else 0x80;
      high = if b == 0xF4 then 0x8F else 0xBF;
      bits = b - 0xF0;
    })
    else none

abbrev cons_some : ℕ → Option Str → Option Str
cons_some c none = none
cons_some c (some s) = some (c ∷ s)

-- With continuation bytes to come in a range, and bits so far.
decode_from : ℕ → ℕ → ℕ → ℕ → List ℕ → Option Str
decode_from zero low high bits [] = some []
decode_from (suc more) low high bits [] = none
decode_from zero low high bits (b ∷ s) =
    let ascii = decode_from 0 0x80 0xBF 0 s in
    let wide = elim (lead_byte b) as (λ _. Option Str) [
      | none ↦ none
      | some l ↦ decode_from l.more l.low l.high l.bits s
    ] in
    if ltb b 0x80 then cons_some b ascii else wide
decode_from (suc more) low high bits (b ∷ s) =
    let value = bits * 64 + (b - 0x80) in
    let rest = decode_from more 0x80 0xBF value s in
    if leb low b && leb b high then (if more == 0 then cons_some value rest else rest) else none

unfoldable pub from_utf8 : List ℕ → Option Str
unfolding decode_from
from_utf8 = decode_from 0 0x80 0xBF 0

-- ASCII bytes decode to themselves.
pub from_utf8-ascii : (s : List ℕ) → All (λ c. c < 128) s → from_utf8 s ≡ some s
unfolding from_utf8
from_utf8-ascii [] h = refl
from_utf8-ascii (c ∷ s) h = ground (arith, from_utf8-ascii s h.1)

three_widths : from_utf8 (as_bytes (str "aß€😀")) ≡ some (str "aß€😀")
unfolding from_utf8 as_bytes
three_widths = refl

lone_continuation : from_utf8 (0x80 ∷ []) ≡ none
unfolding from_utf8
lone_continuation = refl
