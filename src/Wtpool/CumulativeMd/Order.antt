-- ===== src/Wtpool/CumulativeMd/Order.antt =====
-- The `BTreeSet<(String, String)>` of `union_merge_sorted` in wtpool/src/cumulative_md.rs: a list of
-- keys that rises strictly. Strings are compared byte by byte, which is the order of their code
-- points.
pub mod Laws
use mcp_tools.Prelude.{ℕ, Bool, true, false, Option, none, some, List, [], ◌∷◌, if◌then◌else◌, Str}
use Prim.Native.Nat.{compare, Ordering}
use mcp_tools.Wtpool.CumulativeMd.Rows.{is_blank, extract_branch_name}

unfoldable pub str_cmp : Str → Str → Ordering
str_cmp [] [] = Ordering.eq
str_cmp [] (b ∷ t) = Ordering.lt
str_cmp (a ∷ s) [] = Ordering.gt
str_cmp (a ∷ s) (b ∷ t) =
    let rest = str_cmp s t in
    elim (compare a b) [
      | Ordering.lt ↦ Ordering.lt
      | Ordering.eq ↦ rest
      | Ordering.gt ↦ Ordering.gt
    ]

-- A branch name and a line.
abbrev pub Key : Type 0
Key = Str × Str

unfoldable pub key_cmp : Key → Key → Ordering
unfolding str_cmp
key_cmp (b, l) (c, m) = elim (str_cmp b c) [
  | Ordering.lt ↦ Ordering.lt
  | Ordering.eq ↦ str_cmp l m
  | Ordering.gt ↦ Ordering.gt
]

unfoldable pub insert : Key → List Key → List Key
unfolding key_cmp
insert k [] = k ∷ []
insert k (x ∷ xs) =
    let later = x ∷ insert k xs in
    elim (key_cmp k x) [ Ordering.lt ↦ k ∷ x ∷ xs | Ordering.eq ↦ x ∷ xs | Ordering.gt ↦ later ]

abbrev pub unwrap_or_default : Option Str → Str
unwrap_or_default none = []
unwrap_or_default (some s) = s

unfoldable pub key_of : Str → Key
unfolding extract_branch_name
key_of line = (unwrap_or_default (extract_branch_name line), line)

-- The loop over the lines: blank ones are skipped, the others inserted.
unfoldable pub insert_lines : List Key → List Str → List Key
unfolding insert key_of is_blank
insert_lines keyed [] = keyed
insert_lines keyed (line ∷ lines) =
    insert_lines (if is_blank line then keyed else insert (key_of line) keyed) lines

unfoldable pub key_set : List Str → List Key
unfolding insert_lines
key_set lines = insert_lines [] lines
