-- ===== src/Wtpool/CumulativeMd.antt =====
-- wtpool/src/cumulative_md.rs: the resolver of table-row conflicts in the cumulative status document.
-- An array with an index is the list that is left from the index on, beside the index itself.
pub mod Rows
pub mod Order
pub mod Union
pub mod Layout
pub mod Merged
use mcp_tools.Prelude.{
  ℕ, zero, suc, ◌+◌, ◌-◌, Bool, true, false, not, ◌&&◌, ◌||◌, Option, none, some, List, [], ◌∷◌,
  ◌++◌, ltb, leb, ◌==◌, if◌then◌else◌, is_empty, all, length, take, drop, Str, str, starts_with,
  trim_end_matches, split_inclusive,
}
use mathlib.Core.List.{flatten}
use Prim.Native.String.{String}
use mcp_tools.Prelude.Result.{Result, ok, err, ◌>>=◌, ◌>>◌, ensure}
use Rows.{is_table_row, is_branch_comment, is_blank, ends_with}
use Order.{Key, key_set}

pub data ConflictKind : Type 0 where
  content_mixed in_protected_zone malformed_markers : ConflictKind

unfoldable pub as_wire : ConflictKind → Str
as_wire content_mixed = str "content_mixed"
as_wire in_protected_zone = str "in_protected_zone"
as_wire malformed_markers = str "malformed_markers"

abbrev pub preamble_guard_lines : ℕ
preamble_guard_lines = 100

abbrev pub footer_guard_lines : ℕ
footer_guard_lines = 50

pub record Block : Type 0 where
  pub start : ℕ
  pub end : ℕ
  pub ours : List Str
  pub theirs : List Str

abbrev is_line_break : ℕ → Bool
is_line_break c = (c == 10) || (c == 13)

unfoldable pub has_marker : String → Str → Bool
unfolding starts_with trim_end_matches
has_marker marker line = starts_with (str marker) (trim_end_matches is_line_break line)

abbrev pub opens : Str → Bool
opens = has_marker "<<<<<<<"

abbrev pub separates : Str → Bool
separates = has_marker "======="

abbrev pub closes : Str → Bool
closes = has_marker ">>>>>>>"

-- The inner loop once the separator is found: their lines, and what stands behind the closing marker.
unfoldable pub scan_theirs : List Str → Result (List Str × List Str) ConflictKind
scan_theirs [] = err malformed_markers
scan_theirs (line ∷ rest) =
    let more = scan_theirs rest in
    if opens line
    then err malformed_markers
    else if closes line
    then ok ([], rest)
    else (do (theirs, behind) ← more; ok (line ∷ theirs, behind))

-- The inner loop before the separator: our lines, their lines, and what stands behind the block.
unfoldable pub scan_ours : List Str → Result (List Str × List Str × List Str) ConflictKind
unfolding scan_theirs
scan_ours [] = err malformed_markers
scan_ours (line ∷ rest) =
    let more = scan_ours rest in
    if opens line
    then err malformed_markers
    else if separates line
    then (do (theirs, behind) ← scan_theirs rest; ok ([], theirs, behind))
    else if closes line
    then err malformed_markers
    else (do (ours, theirs, behind) ← more; ok (line ∷ ours, theirs, behind))

-- The block whose opening marker stands at an index.
abbrev pub block_at : ℕ → List Str → List Str → Block
block_at i ours theirs = record {
  start = i;
  end = i + length ours + length theirs + 3;
  ours = ours;
  theirs = theirs;
}

-- The outer loop at index `i`. A round drops a line at least, so a round for each line is enough.
unfoldable pub find_blocks_within : ℕ → ℕ → List Str → Result (List Block) ConflictKind
unfolding scan_ours
find_blocks_within rounds i [] = ok []
find_blocks_within zero i (line ∷ rest) = ok []
find_blocks_within (suc rounds) i (line ∷ rest) =
    let plain = find_blocks_within rounds (i + 1) rest in
    let block = do
      (ours, theirs, behind) ← scan_ours rest
      blocks ← find_blocks_within rounds (i + length ours + length theirs + 3) behind
      ok (block_at i ours theirs ∷ blocks)
    in if opens line then block else plain

unfoldable pub find_conflict_blocks : List Str → Result (List Block) ConflictKind
unfolding find_blocks_within
find_conflict_blocks lines = find_blocks_within (length lines) 0 lines

unfoldable pub is_pure_addition : Block → Bool
is_pure_addition b = not (is_empty b.ours) && not (is_empty b.theirs)

unfoldable pub all_lines_table_or_branch_comment : Block → Bool
all_lines_table_or_branch_comment b =
    all (λ l. is_table_row l || is_branch_comment l || is_blank l) (b.ours ++ b.theirs)

abbrev pub ends_line : Str → Bool
ends_line = ends_with (str "\n")

-- The lines that `union_merge_sorted` pushes, in the order of the set.
unfoldable pub union_lines : List Key → List Str
unfolding key_set
union_lines [] = []
union_lines (k ∷ ks) = (if ends_line k.1 then k.1 else k.1 ++ 10 ∷ []) ∷ union_lines ks

unfoldable pub union_merge_sorted : Block → List Str
union_merge_sorted b = union_lines (key_set (b.ours ++ b.theirs))

-- The loop over the blocks, from a cursor on: the lines that are pushed.
unfoldable pub resolve_blocks : List Str → ℕ → List Block → Result (List Str) ConflictKind
resolve_blocks lines cursor [] = ok (drop cursor lines)
resolve_blocks lines cursor (block ∷ blocks) = do
  ensure
      (not (
        ltb block.start preamble_guard_lines
        || leb (length lines) (block.end + footer_guard_lines)))
      in_protected_zone
  ensure (is_pure_addition block) content_mixed
  ensure (all_lines_table_or_branch_comment block) content_mixed
  rest ← resolve_blocks lines block.end blocks
  ok (take (block.start - cursor) (drop cursor lines) ++ (union_merge_sorted block ++ rest))

unfoldable pub resolve_lines : List Str → Result (List Str) ConflictKind
resolve_lines lines = do blocks ← find_conflict_blocks lines; resolve_blocks lines 0 blocks

-- With no block the loop copies the content unchanged, as the early return does.
unfoldable pub resolve_cumulative_md_conflict : Str → Result Str ConflictKind
resolve_cumulative_md_conflict content = do
  lines ← resolve_lines (split_inclusive content)
  ok (flatten lines)
