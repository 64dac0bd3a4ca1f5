-- ===== src/Wtpool/CumulativeMd/Union.antt =====
-- What the union of the two sides of a conflict is, said without the set that the code sorts it with.
use mcp_tools.Prelude.{
  ◌<◌, ◌≡◌, ◌↔◌, ◌⊎◌, refl, inl, inr, ap, ◌∙◌, false, List, [], ◌∷◌, ◌++◌, map, arith, Str, In,
  if◌then◌else◌,
}
use Prim.Native.Nat.{Ordering}
use mcp_tools.Wtpool.CumulativeMd.{Block, ends_line, union_lines, union_merge_sorted}
use mcp_tools.Wtpool.CumulativeMd.Rows.{is_blank, extract_branch_name}
use mcp_tools.Wtpool.CumulativeMd.Order.{str_cmp, Key, key_cmp, key_of, key_set, unwrap_or_default}
use mcp_tools.Wtpool.CumulativeMd.Order.Laws.{Rises, In-key_set, key_set-Rises, str_cmp-eq}

-- The line as it is written: with a line feed at its end.
abbrev pub ended : Str → Str
ended line = if ends_line line then line else line ++ 10 ∷ []

-- A text stands before another in the order of a dictionary, by code points.
abbrev pub IsBefore : Str → Str → Type 0
IsBefore s [] = ⊥
IsBefore [] (b ∷ t) = Unit
IsBefore (a ∷ s) (b ∷ t) = (a < b) ⊎ ((a ≡ b) × IsBefore s t)

-- Rows are ordered by their branch names, and rows of one name by their text.
abbrev pub branch_of : Str → Str
branch_of row = unwrap_or_default (extract_branch_name row)

abbrev pub IsRowBefore : Str → Str → Type 0
IsRowBefore row other =
    IsBefore (branch_of row) (branch_of other)
    ⊎ ((branch_of row ≡ branch_of other) × IsBefore row other)

abbrev pub IsSorted : List Str → Type 0
IsSorted [] = Unit
IsSorted (row ∷ []) = Unit
IsSorted (row ∷ other ∷ rest) = IsRowBefore row other × IsSorted (other ∷ rest)

-- `written` are the lines of the sides that are not blank, each once, sorted, with line feeds.
abbrev pub IsUnion : List Str → List Str → Type 0
IsUnion sides written =
    (rows : List Str) × IsSorted rows
    × ((row : Str) → In row rows ↔ (In row sides × (is_blank row ≡ false)))
    × (written ≡ map ended rows)

str_cmp-IsBefore : (s t : Str) → str_cmp s t ≡ Ordering.lt → IsBefore s t
unfolding str_cmp
str_cmp-IsBefore [] [] h = ground arith
str_cmp-IsBefore [] (b ∷ t) h = tt
str_cmp-IsBefore (a ∷ s) [] h = ground arith
str_cmp-IsBefore (a ∷ s) (b ∷ t) h = ground (arith, str_cmp-IsBefore s t)

text_of : List Key → List Str
text_of [] = []
text_of (k ∷ ks) = k.1 ∷ text_of ks

union_lines-ended : (ks : List Key) → union_lines ks ≡ map ended (text_of ks)
unfolding union_lines text_of
union_lines-ended [] = refl
union_lines-ended (k ∷ ks) = ap (◌∷◌ (ended k.1)) (union_lines-ended ks)

In-text_of : (k : Key) (ks : List Key) → In k ks → In k.1 (text_of ks)
unfolding text_of
In-text_of k [] m = absurd m
In-text_of k (j ∷ ks) (inl e) = inl (ap (λ (i : Key). i.1) e)
In-text_of k (j ∷ ks) (inr m) = inr (In-text_of k ks m)

key_with_text :
    (row : Str) (ks : List Key) → In row (text_of ks) → (k : Key) × In k ks × (row ≡ k.1)
unfolding text_of
key_with_text row [] m = absurd m
key_with_text row (j ∷ ks) (inl e) = (j, inl refl, e)
key_with_text row (j ∷ ks) (inr m) = let (k, i, e) = key_with_text row ks m in (k, inr i, e)

-- A key is that of its own text.
abbrev IsOwn : Key → Type 0
IsOwn k = k.0 ≡ branch_of k.1

key_cmp-IsRowBefore :
    (k j : Key) → IsOwn k → IsOwn j → key_cmp k j ≡ Ordering.lt → IsRowBefore k.1 j.1
unfolding key_cmp
key_cmp-IsRowBefore (b, l) (c, m) own own' h =
    ground (arith, str_cmp-IsBefore b c, str_cmp-IsBefore l m, str_cmp-eq b c)

text_of-IsSorted :
    (ks : List Key) → ((k : Key) → In k ks → IsOwn k) → Rises ks → IsSorted (text_of ks)
unfolding text_of
text_of-IsSorted [] own r = tt
text_of-IsSorted (k ∷ []) own r = tt
text_of-IsSorted (k ∷ j ∷ ks) own (below, r) = (
  key_cmp-IsRowBefore k j (own k (inl refl)) (own j (inr (inl refl))) below,
  text_of-IsSorted (j ∷ ks) (λ i m. own i (inr m)) r,
)

key_set-IsOwn : (lines : List Str) (k : Key) → In k (key_set lines) → IsOwn k
unfolding key_of
key_set-IsOwn lines k m = let (line, i, row, e) = (In-key_set k lines).0 m in rw e refl

key_set-rows :
    (lines : List Str) (row : Str)
    → In row (text_of (key_set lines)) ↔ (In row lines × (is_blank row ≡ false))
unfolding key_of
key_set-rows lines row = (
  λ m.
      let (k, i, e) = key_with_text row (key_set lines) m in
      let (line, there, full, same) = (In-key_set k lines).0 i in
      let own : row ≡ line = e ∙ ap (λ (j : Key). j.1) same in rw own (there, full),
  λ (there, full).
      In-text_of (key_of row) (key_set lines)
        ((In-key_set (key_of row) lines).1 (row, there, full, refl)),
)

pub union_merge_sorted-IsUnion : (b : Block) → IsUnion (b.ours ++ b.theirs) (union_merge_sorted b)
unfolding union_merge_sorted
union_merge_sorted-IsUnion b =
    let keys = key_set (b.ours ++ b.theirs) in
    (
      text_of keys,
      text_of-IsSorted keys (key_set-IsOwn (b.ours ++ b.theirs))
          (key_set-Rises (b.ours ++ b.theirs)),
      key_set-rows (b.ours ++ b.theirs),
      union_lines-ended keys,
    )
