-- ===== src/Prelude/Occurs.antt =====
-- `str::contains` and `str::starts_with`: where a text occurs in another one.
use mathlib.Core.Path.{◌≡◌, refl}
use mathlib.Core.Logic.{◌↔◌, inl, inr}
use mathlib.Core.Bool.{true}
use mathlib.Core.List.{[], ◌∷◌, ◌++◌}
use native.Mathlib.Omega.{arith}
use mcp_tools.Prelude.Tests.{Bool-cases}
use mcp_tools.Prelude.Text.{Str, starts_with, contains}

pub starts_with_iff : (p s : Str) → (starts_with p s ≡ true) ↔ ((rest : Str) × (s ≡ p ++ rest))
unfolding starts_with
starts_with_iff [] s = ((λ h. (s, refl)), λ h. refl)
starts_with_iff (c ∷ p) [] = ((λ h. cc), λ (rest, e). cc)
starts_with_iff (c ∷ p) (d ∷ s) = (
  λ h.
      let same : c ≡ d = ground arith in
      let (rest, e) = (starts_with_iff p s).0 (ground arith) in (rest, cc (same, e)),
  λ (rest, e).
      let same : c ≡ d = cc in
      let tail : s ≡ p ++ rest = cc in ground (arith, (starts_with_iff p s).1 (rest, tail)),
)

abbrev pub Occurs : Str → Str → Type 0
Occurs sub s = (front : Str) × (rest : Str) × (s ≡ front ++ (sub ++ rest))

pub contains-Occurs : (sub s : Str) → contains sub s ≡ true → Occurs sub s
unfolding contains
contains-Occurs [] [] h = ([], [], refl)
contains-Occurs (d ∷ sub) [] h = absurd (ground arith)
contains-Occurs sub (c ∷ s) h = elim (Bool-cases (starts_with sub (c ∷ s))) [
  | inl here ↦ let (rest, e) = (starts_with_iff sub (c ∷ s)).0 here in ([], rest, e)
  | inr later ↦
      let (front, rest, e) = contains-Occurs sub s (ground arith) in (c ∷ front, rest, cc e)
]

pub Occurs-contains : (sub s front rest : Str) → s ≡ front ++ (sub ++ rest) → contains sub s ≡ true
unfolding contains
Occurs-contains [] [] front rest e = refl
Occurs-contains (d ∷ sub) [] [] rest e = cc
Occurs-contains (d ∷ sub) [] (f ∷ front) rest e = cc
Occurs-contains sub (c ∷ s) [] rest e = ground (arith, (starts_with_iff sub (c ∷ s)).1 (rest, e))
Occurs-contains sub (c ∷ s) (f ∷ front) rest e =
    let tail : s ≡ front ++ (sub ++ rest) = cc in
    ground (arith, Occurs-contains sub s front rest tail)
