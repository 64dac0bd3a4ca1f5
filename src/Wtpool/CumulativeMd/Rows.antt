-- ===== src/Wtpool/CumulativeMd/Rows.antt =====
-- The tests on lines of wtpool/src/cumulative_md.rs, and the branch name by which rows are sorted.
use mcp_tools.Prelude.{
  ℕ, zero, suc, Bool, false, not, ◌&&◌, ◌||◌, Option, none, some, List, [], ◌∷◌, leb, ◌==◌,
  if◌then◌else◌, is_empty, all, length, Str, str, starts_with, strip_prefix, contains, trim,
  trim_start, split, split_by, is_ascii_alphanumeric, is_ascii_lowercase, is_ascii_digit, len,
}
use mathlib.Core.List.{reverse}

unfoldable pub ends_with : Str → Str → Bool
unfolding starts_with
ends_with suffix s = starts_with (reverse suffix) (reverse s)

unfoldable pub is_table_row : Str → Bool
unfolding trim_start starts_with
is_table_row line =
    let t = trim_start line in
    starts_with (str "| ") t || starts_with (str "|---") t || starts_with (str "|-") t

unfoldable pub is_branch_comment : Str → Bool
unfolding trim starts_with ends_with
is_branch_comment line = let t = trim line in starts_with (str "<!--") t && ends_with (str "-->") t

unfoldable pub is_blank : Str → Bool
unfolding trim
is_blank line = is_empty (trim line)

-- `trim_start_matches` with a text: the text is dropped as long as it stands in front. Each round
-- drops a character at least.
unfoldable pub drop_prefixes : ℕ → Str → Str → Str
unfolding strip_prefix
drop_prefixes zero prefix s = s
drop_prefixes (suc rounds) prefix s = elim (strip_prefix prefix s) [
  | none ↦ s
  | some rest ↦ drop_prefixes rounds prefix rest
]

unfoldable pub trim_start_matches_str : Str → Str → Str
unfolding drop_prefixes
trim_start_matches_str prefix s = drop_prefixes (length s) prefix s

unfoldable pub trim_end_matches_str : Str → Str → Str
unfolding trim_start_matches_str
trim_end_matches_str suffix s = reverse (trim_start_matches_str (reverse suffix) (reverse s))

abbrev first_piece : List Str → Str
first_piece [] = []
first_piece (p ∷ ps) = p

-- The text of an HTML comment up to its first colon.
unfoldable pub comment_name : Str → Str
unfolding trim_start_matches_str trim_end_matches_str trim split
comment_name t =
    let inner = trim (trim_end_matches_str (str "-->") (trim_start_matches_str (str "<!--") t)) in
    trim (first_piece (split b':' inner))

abbrev pub find {ℓ} : {A : Type ℓ} → (A → Bool) → List A → Option A
find p [] = none
find p (x ∷ xs) = if p x then some x else find p xs

unfoldable pub is_token_char : ℕ → Bool
unfolding is_ascii_alphanumeric
is_token_char c = is_ascii_alphanumeric c || (c == b'-') || (c == b'_')

unfoldable pub phase_token : Str → Option Str
unfolding is_token_char split_by contains
phase_token t =
    find (λ tok. contains (str "phase2") tok || contains (str "phase-2") tok)
      (split_by (λ c. not (is_token_char c)) t)

abbrev starts_lowercase : Str → Bool
starts_lowercase [] = false
starts_lowercase (c ∷ s) = is_ascii_lowercase c

unfoldable pub is_branch_cell : Str → Bool
unfolding is_ascii_lowercase is_ascii_digit all len
is_branch_cell c =
    starts_lowercase c
    && all (λ x. is_ascii_lowercase x || is_ascii_digit x || (x == b'-') || (x == b'_')) c
    && leb 4 (len c)

-- An empty cell starts with no letter, so the `continue` on it is the same failing test.
unfoldable pub branch_cell : List Str → Option Str
unfolding is_branch_cell trim
branch_cell [] = none
branch_cell (cell ∷ cells) =
    if is_branch_cell (trim cell) then some (trim cell) else branch_cell cells

unfoldable pub row_name : Str → Option Str
unfolding phase_token branch_cell split
row_name t = elim (phase_token t) [ some tok ↦ some tok | none ↦ branch_cell (split b'|' t) ]

unfoldable pub extract_branch_name : Str → Option Str
unfolding comment_name row_name trim starts_with
extract_branch_name line =
    let t = trim line in
    if starts_with (str "<!--") t && not (is_empty (comment_name t))
    then some (comment_name t)
    else row_name t
