-- ===== src/Wtpool/CumulativeMd/Merged.antt =====
-- What a resolved document is: the plain lines in their order, and for each conflict its rows.
pub mod NoMarkers
pub mod KeepsRows
use mcp_tools.Prelude.{
  ℕ, zero, suc, ◌+◌, ◌-◌, ◌≤◌, ◌<◌, ◌≡◌, ◌≢◌, refl, ap, ◌∙◌, sym, Bool, true, false, not, ◌&&◌,
  ◌||◌, List, [], ◌∷◌, ◌++◌, arith, Str, All, Bool-cases, if◌then◌else◌, length, length-append,
  append_assoc, inl, inr, ◌⊎◌, take, drop, take-append, drop-append, drop-drop, drop-append_two,
  all, all_iff, ltb, leb, is_empty,
}
use mcp_tools.Prelude.Result.{Result, ok, err, ◌>>=◌, ◌>>◌, ensure, Result-cases}
use mcp_tools.Wtpool.CumulativeMd.{
  ConflictKind, Block, preamble_guard_lines, footer_guard_lines, is_pure_addition,
  all_lines_table_or_branch_comment, union_merge_sorted, resolve_blocks, resolve_lines,
  find_conflict_blocks,
}
use mcp_tools.Wtpool.CumulativeMd.Rows.{is_table_row, is_branch_comment, is_blank}
use mcp_tools.Wtpool.CumulativeMd.Union.{IsUnion, union_merge_sorted-IsUnion}
use mcp_tools.Wtpool.CumulativeMd.Layout.{
  IsPlain, Conflict, conflict_lines, Layout, find_conflict_blocks-Layout,
}

abbrev pub IsRow : Str → Type 0
IsRow l = (is_table_row l || is_branch_comment l || is_blank l) ≡ true

-- The conditions on a block of a document of so many lines.
pub record IsMergeable (total : ℕ) (b : Block) : Type 0 where
  pub past_preamble : preamble_guard_lines ≤ b.start
  pub before_footer : b.end + footer_guard_lines < total
  pub ours_add : b.ours ≢ []
  pub theirs_add : b.theirs ≢ []
  pub rows : All IsRow (b.ours ++ b.theirs)

-- `lines`, from line `i` of `total` on, resolve to `out`: plain lines stay, and each conflict becomes
-- the rows of its sides.
abbrev pub Merged : ℕ → ℕ → List Str → List Block → List Str → Type 0
Merged total i lines [] out = All IsPlain lines × (out ≡ lines)
Merged total i lines (b ∷ bs) out =
    (context : List Str) × (behind : List Str) × (c : Conflict b.ours b.theirs) × (later : List Str)
    × (rows : List Str) × (lines ≡ context ++ (conflict_lines c ++ behind))
    × All IsPlain context
    × (b.start ≡ i + length context)
    × IsMergeable total b
    × IsUnion (b.ours ++ b.theirs) rows
    × (out ≡ context ++ (rows ++ later))
    × Merged total b.end behind bs later

mergeable :
    (lines : List Str) (b : Block)
    → (ltb b.start preamble_guard_lines || leb (length lines) (b.end + footer_guard_lines)) ≡ false
    → is_pure_addition b ≡ true
    → all_lines_table_or_branch_comment b ≡ true
    → IsMergeable (length lines) b
unfolding is_pure_addition all_lines_table_or_branch_comment
mergeable lines b zone adds rows = record {
  past_preamble = ground arith;
  before_footer = ground arith;
  ours_add = λ e. ground (arith, ap is_empty e);
  theirs_add = λ e. ground (arith, ap is_empty e);
  rows = (all_iff _ (b.ours ++ b.theirs)).0 rows;
}

-- Where a block stands among the lines that are left.
drop-block :
    (lines context behind : List Str) (b : Block) (c : Conflict b.ours b.theirs) (cursor : ℕ)
    → drop cursor lines ≡ context ++ (conflict_lines c ++ behind)
    → b.start ≡ cursor + length context
    → b.end ≡ b.start + length (conflict_lines c)
    → drop b.end lines ≡ behind
drop-block lines context behind b c cursor tile start end =
    let place : b.end ≡ cursor + (length context + length (conflict_lines c)) = omega arith in
    ap (λ n. drop n lines) place
    ∙ (sym (drop-drop cursor (length context + length (conflict_lines c)) lines)
        ∙ (ap (drop (length context + length (conflict_lines c))) tile
            ∙ drop-append_two context (conflict_lines c) behind))

take-context :
    (lines context behind : List Str) (start cursor : ℕ)
    → drop cursor lines ≡ context ++ behind
    → start ≡ cursor + length context
    → take (start - cursor) (drop cursor lines) ≡ context
take-context lines context behind start cursor tile e =
    let many : start - cursor ≡ length context = omega arith in
    ap (λ n. take n (drop cursor lines)) many
    ∙ (ap (take (length context)) tile ∙ take-append context behind)

resolve_blocks-Merged :
    (lines : List Str) (cursor : ℕ) (blocks : List Block) (out : List Str)
    → Layout cursor (drop cursor lines) blocks
    → resolve_blocks lines cursor blocks ≡ ok out
    → Merged (length lines) cursor (drop cursor lines) blocks out
unfolding resolve_blocks
resolve_blocks-Merged lines cursor [] out l h = (l, ground arith)
resolve_blocks-Merged lines cursor (b ∷ bs) out (context, behind, c, tile, plains, start, end, l)
      h =
    elim (Bool-cases
      (ltb b.start preamble_guard_lines || leb (length lines) (b.end + footer_guard_lines))) [
        | inl zone ↦ absurd (ground arith)
        | inr zone ↦ elim (Bool-cases (is_pure_addition b)) [
          | inr mixed ↦ absurd (ground arith)
          | inl adds ↦ elim (Bool-cases (all_lines_table_or_branch_comment b)) [
            | inr mixed ↦ absurd (ground arith)
            | inl rows ↦ elim (Result-cases (resolve_blocks lines b.end bs)) [
              | inr (k, e) ↦ absurd (ground arith)
              | inl (later, e) ↦
                  let place = drop-block lines context behind b c cursor tile start end in
                  let pushed : out
                      ≡ take (b.start - cursor) (drop cursor lines)
                        ++ (union_merge_sorted b ++ later) =
                    ground arith in
                  let front =
                    take-context lines context (conflict_lines c ++ behind) b.start cursor tile
                      start in
                  let rest = resolve_blocks-Merged lines b.end bs later (rw place l) e in
                  (
                    context,
                    behind,
                    c,
                    later,
                    union_merge_sorted b,
                    tile,
                    plains,
                    start,
                    mergeable lines b zone adds rows,
                    union_merge_sorted-IsUnion b,
                    pushed ∙ ap (λ s. s ++ (union_merge_sorted b ++ later)) front,
                    rw place at rest,
                  )
            ]
          ]
        ]
      ]

-- A document that is resolved keeps every line outside of the conflicts, in its place; each conflict
-- lies past the preamble and before the footer, adds rows on both sides and holds nothing but table
-- rows, branch comments and blank lines. In its place stand the lines of its two sides that are not
-- blank, each of them once, with a line feed at its end, and in the order of their branch names and,
-- under one name, of their texts.
pub resolve_lines-Merged :
    (lines out : List Str)
    → resolve_lines lines ≡ ok out
    → (blocks : List Block) × (find_conflict_blocks lines ≡ ok blocks)
      × Merged (length lines) 0 lines blocks out
unfolding resolve_lines
resolve_lines-Merged lines out h = elim (Result-cases (find_conflict_blocks lines)) [
  | inl (blocks, e) ↦ (
    blocks,
    e,
    resolve_blocks-Merged lines 0 blocks out (find_conflict_blocks-Layout lines blocks e)
        (ground arith),
  )
  | inr (k, e) ↦ absurd (ground arith)
]
