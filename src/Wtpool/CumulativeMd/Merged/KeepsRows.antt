-- ===== src/Wtpool/CumulativeMd/Merged/KeepsRows.antt =====
-- No row of either side of a conflict is lost, and it does not matter which side is which.
use mcp_tools.Prelude.{
  ℕ, ◌≡◌, ap, false, List, [], ◌∷◌, ◌++◌, map, Str, inl, inr, In, In-append_left, In-append_right,
  In-append,
}
use mcp_tools.Prelude.Result.{ok}
use mcp_tools.Wtpool.CumulativeMd.{
  Block, union_lines, union_merge_sorted, find_conflict_blocks, resolve_lines,
}
use mcp_tools.Wtpool.CumulativeMd.Rows.{is_blank}
use mcp_tools.Wtpool.CumulativeMd.Order.Laws.{key_set-ext}
use mcp_tools.Wtpool.CumulativeMd.Union.{ended, IsUnion}
use mcp_tools.Wtpool.CumulativeMd.Merged.{Merged, resolve_lines-Merged}

In-map : (f : Str → Str) (l : Str) (ls : List Str) → In l ls → In (f l) (map f ls)
In-map f l [] m = absurd m
In-map f l (k ∷ ls) (inl e) = inl (ap f e)
In-map f l (k ∷ ls) (inr m) = inr (In-map f l ls m)

In-IsUnion :
    (sides written : List Str) (line : Str)
    → IsUnion sides written
    → In line sides
    → is_blank line ≡ false
    → In (ended line) written
In-IsUnion sides written line (rows, sorted, same, e) m full =
    rw e (In-map ended line rows ((same line).1 (m, full)))

Merged-keeps :
    (total i : ℕ) (lines : List Str) (blocks : List Block) (out : List Str) (b : Block) (line : Str)
    → Merged total i lines blocks out
    → In b blocks
    → In line (b.ours ++ b.theirs)
    → is_blank line ≡ false
    → In (ended line) out
Merged-keeps total i lines [] out b line m inside row full = absurd inside
Merged-keeps total i lines (d ∷ ds) out b line
      (context, behind, c, later, rows, _, _, _, _, union, e, m) (inl same) row full =
    rw e (
      In-append_right (ended line) context (rows ++ later) (
        In-append_left (ended line) rows later
          (In-IsUnion (d.ours ++ d.theirs) rows line union (rw same at row) full)))
Merged-keeps total i lines (d ∷ ds) out b line
      (context, behind, c, later, rows, _, _, _, _, union, e, m) (inr inside) row full =
    rw e (
      In-append_right (ended line) context (rows ++ later) (
        In-append_right (ended line) rows later
          (Merged-keeps total d.end behind ds later b line m inside row full)))

-- Every line of either side of a conflict that is found in the document, if the line is not blank,
-- stands in the resolved document, with a line feed at its end.
pub resolve_lines-keeps_rows :
    (lines out : List Str) (blocks : List Block) (b : Block) (line : Str)
    → resolve_lines lines ≡ ok out
    → find_conflict_blocks lines ≡ ok blocks
    → In b blocks
    → In line (b.ours ++ b.theirs)
    → is_blank line ≡ false
    → In (ended line) out
resolve_lines-keeps_rows lines out blocks b line h found inside row full =
    let (bs, e, m) = resolve_lines-Merged lines out h in
    let same : bs ≡ blocks = cc in Merged-keeps _ 0 lines bs out b line m (rw same inside) row full

-- The union does not depend on which side is ours.
pub union_merge_sorted-swap :
    (start end : ℕ) (ours theirs : List Str)
    → union_merge_sorted (record { start = start; end = end; ours = ours; theirs = theirs })
      ≡ union_merge_sorted (record { start = start; end = end; ours = theirs; theirs = ours })
unfolding union_merge_sorted
union_merge_sorted-swap start end ours theirs =
    ap union_lines
      (key_set-ext (ours ++ theirs) (theirs ++ ours) λ l. (swap ours theirs l, swap theirs ours l))
  where
    swap : (xs ys : List Str) (l : Str) → In l (xs ++ ys) → In l (ys ++ xs)
    swap xs ys l m = elim (In-append l xs ys m) [
      | inl left ↦ In-append_right l ys xs left
      | inr right ↦ In-append_left l ys xs right
    ]
