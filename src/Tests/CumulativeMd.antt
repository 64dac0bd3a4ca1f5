-- ===== src/Tests/CumulativeMd.antt =====
-- Runs of the merge driver of wtpool/src/cumulative_md.rs, on a document with one conflict.
use mcp_tools.Prelude.{
  inl, inr, ℕ, zero, suc, ◌≡◌, refl, false, some, List, [], ◌∷◌, ◌++◌, length, All, In, all, Str,
  str,
}
use mcp_tools.Prelude.Result.{ok}
use mcp_tools.Wtpool.CumulativeMd.{
  Block, opens, has_marker, find_blocks_within, find_conflict_blocks, is_pure_addition,
  all_lines_table_or_branch_comment, union_lines, union_merge_sorted, resolve_blocks, resolve_lines,
}
use mcp_tools.Wtpool.CumulativeMd.Rows.{
  ends_with, is_table_row, is_branch_comment, is_blank, extract_branch_name,
}
use mcp_tools.Wtpool.CumulativeMd.Order.{key_set}
use mcp_tools.Wtpool.CumulativeMd.Merged.{Merged, resolve_lines-Merged}
use mcp_tools.Wtpool.CumulativeMd.Merged.NoMarkers.{resolve_lines-no_markers}
use mcp_tools.Wtpool.CumulativeMd.Merged.KeepsRows.{resolve_lines-keeps_rows}

abbrev filler : ℕ → Str → List Str
filler zero l = []
filler (suc n) l = l ∷ filler n l

abbrev ours : List Str
ours = str "| zeta-phase2 | a |\n" ∷ []

abbrev theirs : List Str
theirs = str "| alpha-phase2 | b |\n" ∷ str "\n" ∷ []

abbrev behind : List Str
behind = filler 60 (str "f\n")

abbrev doc : List Str
doc =
    filler 120 (str "p\n")
    ++ (str "<<<<<<< HEAD\n"
        ∷ (ours ++ (str "=======\n" ∷ (theirs ++ (str ">>>>>>> b\n" ∷ behind)))))

abbrev merged : List Str
merged =
    filler 120 (str "p\n") ++ (str "| alpha-phase2 | b |\n" ∷ str "| zeta-phase2 | a |\n" ∷ behind)

abbrev block : Block
block = record { start = 120; end = 126; ours = ours; theirs = theirs }

found : find_conflict_blocks doc ≡ ok (block ∷ [])
unfolding find_conflict_blocks find_blocks_within has_marker
found = refl

resolved : resolve_lines doc ≡ ok merged
unfolding resolve_lines find_conflict_blocks resolve_blocks is_pure_addition
    all_lines_table_or_branch_comment union_merge_sorted union_lines find_blocks_within has_marker
    all is_table_row is_branch_comment is_blank key_set ends_with
resolved = refl

resolve_lines-Merged_example :
    (blocks : List Block) × (find_conflict_blocks doc ≡ ok blocks)
    × Merged (length doc) 0 doc blocks merged
resolve_lines-Merged_example = resolve_lines-Merged doc merged resolved

resolve_lines-no_markers_example : All (λ l. opens l ≡ false) merged
resolve_lines-no_markers_example = resolve_lines-no_markers doc merged resolved

abbrev plain_text : Str
plain_text = str "a\nb"

resolve_lines-keeps_rows_example : In (str "| alpha-phase2 | b |\n") merged
unfolding is_blank ends_with
resolve_lines-keeps_rows_example =
    resolve_lines-keeps_rows doc merged (block ∷ []) block (str "| alpha-phase2 | b |\n") resolved
      found (inl refl) (inr (inl refl)) refl

shipped_comment :
    extract_branch_name (str "<!-- gm-b3-phase2: shipped 2026-04-24 -->")
    ≡ some (str "gm-b3-phase2")
unfolding extract_branch_name
shipped_comment = refl

phase_row :
    extract_branch_name (str "| enhanced-input-phase2 | shipped | landed `02dea32` |\n")
    ≡ some (str "enhanced-input-phase2")
unfolding extract_branch_name
phase_row = refl

cell_row : extract_branch_name (str "| Status | abc | wt-pool | x |\n") ≡ some (str "wt-pool")
unfolding extract_branch_name
cell_row = refl
