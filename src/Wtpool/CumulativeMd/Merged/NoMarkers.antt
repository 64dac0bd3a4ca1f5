-- ===== src/Wtpool/CumulativeMd/Merged/NoMarkers.antt =====
-- No opening marker is left in a resolved document.
use mcp_tools.Prelude.{
  ℕ, zero, suc, ◌+◌, ◌≡◌, refl, ap, Bool, true, false, ◌||◌, List, [], ◌∷◌, ◌++◌, map, arith, Str,
  str, All, Bool-cases, inl, inr, In, starts_with, trim_end_matches, trim_start, trim,
  is_whitespace, All-append, All-In, length, split_inclusive, cons_head, ◌==◌,
}
use mcp_tools.Prelude.Result.{ok}
use mcp_tools.Wtpool.CumulativeMd.{
  Block, is_line_break, has_marker, opens, resolve_lines, find_blocks_within, find_conflict_blocks,
  resolve_blocks, resolve_cumulative_md_conflict,
}
use mathlib.Core.List.{flatten}
use mcp_tools.Wtpool.CumulativeMd.Rows.{is_table_row, is_branch_comment, is_blank}
use mcp_tools.Wtpool.CumulativeMd.Layout.{IsPlain}
use mcp_tools.Wtpool.CumulativeMd.Union.{ended, IsUnion}
use mcp_tools.Wtpool.CumulativeMd.Merged.{IsRow, Merged, resolve_lines-Merged}

-- A text that begins with two less-than signs.
abbrev IsAngled : Str → Type 0
IsAngled s = (r : Str) × (s ≡ b'<' ∷ b'<' ∷ r)

starts_with-IsAngled : (s : Str) → starts_with (str "<<<<<<<") s ≡ true → IsAngled s
unfolding starts_with
starts_with-IsAngled [] h = absurd (ground arith)
starts_with-IsAngled (a ∷ []) h = absurd (ground arith)
starts_with-IsAngled (a ∷ b ∷ r) h = (r, ground arith)

IsAngled-trim_end_matches : (p : ℕ → Bool) (s : Str) → IsAngled (trim_end_matches p s) → IsAngled s
unfolding trim_end_matches
IsAngled-trim_end_matches p [] (r, e) = absurd (ground arith)
IsAngled-trim_end_matches p (c ∷ []) (r, e) = absurd (ground arith)
IsAngled-trim_end_matches p (c ∷ d ∷ s) (r, e) = (s, ground arith)

opens-IsAngled : (line : Str) → opens line ≡ true → IsAngled line
unfolding has_marker
opens-IsAngled line h =
    IsAngled-trim_end_matches is_line_break line
      (starts_with-IsAngled (trim_end_matches is_line_break line) h)

trim-IsAngled : (r : Str) → IsAngled (trim (b'<' ∷ b'<' ∷ r))
unfolding trim
trim-IsAngled r = (trim_end_matches is_whitespace r, ground arith)

IsAngled-not-row :
    (line : Str)
    → IsAngled line
    → (is_table_row line || is_branch_comment line || is_blank line) ≡ false
unfolding is_table_row is_branch_comment is_blank trim_start
IsAngled-not-row line (r, e) =
    let (r', e') = trim-IsAngled r in rw (e, e', is_table_row, is_branch_comment, is_blank)

IsRow-IsPlain : (line : Str) → IsRow line → IsPlain line
IsRow-IsPlain line row = elim (Bool-cases (opens line)) [
  | inl opened ↦ absurd (ground (arith, IsAngled-not-row line (opens-IsAngled line opened)))
  | inr plain ↦ plain
]

trim_end_matches-line_feed :
    (s : Str) → trim_end_matches is_line_break (s ++ 10 ∷ []) ≡ trim_end_matches is_line_break s
unfolding trim_end_matches
trim_end_matches-line_feed [] = refl
trim_end_matches-line_feed (c ∷ s) = ground (arith, trim_end_matches-line_feed s)

IsPlain-line_feed : (line : Str) → IsPlain line → IsPlain (line ++ 10 ∷ [])
unfolding has_marker
IsPlain-line_feed line plain = rw (trim_end_matches-line_feed line) plain

ended-IsPlain :
    (rows : List Str) → ((row : Str) → In row rows → IsPlain row) → All IsPlain (map ended rows)
ended-IsPlain [] h = tt
ended-IsPlain (row ∷ rows) h = (
  ground (arith, h row (inl refl), IsPlain-line_feed row),
  ended-IsPlain rows (λ r m. h r (inr m)),
)

IsUnion-IsPlain :
    (sides written : List Str) → All IsRow sides → IsUnion sides written → All IsPlain written
IsUnion-IsPlain sides written given (rows, sorted, same, e) = rw e (
    ended-IsPlain rows λ row m. IsRow-IsPlain row (All-In IsRow sides row given ((same row).0 m).0))

Merged-IsPlain :
    (total i : ℕ) (lines : List Str) (blocks : List Block) (out : List Str)
    → Merged total i lines blocks out
    → All IsPlain out
Merged-IsPlain total i lines [] out (plains, e) = rw e plains
Merged-IsPlain total i lines (b ∷ bs) out
      (context, behind, c, later, rows, _, plains, _, v, union, e, m) =
    rw e (
      All-append IsPlain context (rows ++ later) plains (
        All-append IsPlain rows later (IsUnion-IsPlain (b.ours ++ b.theirs) rows v.rows union)
          (Merged-IsPlain total b.end behind bs later m)))

-- No line of a resolved document is an opening conflict marker.
pub resolve_lines-no_markers :
    (lines out : List Str) → resolve_lines lines ≡ ok out → All (λ l. opens l ≡ false) out
resolve_lines-no_markers lines out h =
    let (blocks, _, m) = resolve_lines-Merged lines out h in Merged-IsPlain _ 0 lines blocks out m

find_blocks_within-plain :
    (rounds i : ℕ) (lines : List Str)
    → All IsPlain lines
    → find_blocks_within rounds i lines ≡ ok []
unfolding find_blocks_within
find_blocks_within-plain rounds i [] h = refl
find_blocks_within-plain zero i (line ∷ rest) h = refl
find_blocks_within-plain (suc rounds) i (line ∷ rest) (plain, h) =
    rw plain (find_blocks_within-plain rounds (i + 1) rest h)

resolve_lines-plain : (lines : List Str) → All IsPlain lines → resolve_lines lines ≡ ok lines
unfolding resolve_lines find_conflict_blocks resolve_blocks
resolve_lines-plain lines h = rw (find_blocks_within-plain (length lines) 0 lines h, resolve_blocks)

-- To resolve a resolved document again changes nothing.
pub resolve_lines-idempotent :
    (lines out : List Str) → resolve_lines lines ≡ ok out → resolve_lines out ≡ ok out
resolve_lines-idempotent lines out h =
    resolve_lines-plain out (resolve_lines-no_markers lines out h)

flatten-cons_head : (c : ℕ) (ps : List Str) → flatten (cons_head c ps) ≡ c ∷ flatten ps
unfolding flatten
flatten-cons_head c [] = refl
flatten-cons_head c (p ∷ ps) = refl

flatten-split_inclusive : (s : Str) → flatten (split_inclusive s) ≡ s
unfolding split_inclusive flatten
flatten-split_inclusive [] = refl
flatten-split_inclusive (c ∷ s) = elim (Bool-cases (c == 10)) [
  | inl feed ↦ rw feed (ap (◌∷◌ c) (flatten-split_inclusive s))
  | inr other ↦
      rw (other, flatten-cons_head c (split_inclusive s)) (ap (◌∷◌ c) (flatten-split_inclusive s))
]

-- A document none of whose lines is an opening marker is returned unchanged.
pub resolve_cumulative_md_conflict-plain :
    (content : Str)
    → All (λ l. opens l ≡ false) (split_inclusive content)
    → resolve_cumulative_md_conflict content ≡ ok content
unfolding resolve_cumulative_md_conflict
resolve_cumulative_md_conflict-plain content h =
    rw (resolve_lines-plain (split_inclusive content) h) (ap ok (flatten-split_inclusive content))
