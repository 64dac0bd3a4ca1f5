-- ===== src/LspCpp/Clangd/Answers.antt =====
-- lsp-cpp/src/clangd.rs: what clangd is asked, and how its answers are read. Lines and columns are
-- counted from one outside and from zero inside; `as u32` is the remainder by 2 ^ 32.
use mcp_tools.Prelude.{
  ℕ, ◌+◌, ◌-◌, ◌%◌, ◌^◌, true, Option, none, some, List, [], ◌∷◌, ◌++◌, Str, str, strip_prefix,
  is_empty, if◌then◌else◌,
}
use mcp_tools.Prelude.Json.{
  Json, null, boolean, text, array, object, get, get_str, get_u64, list_of, nat, ◌>>=◌,
}
use mcp_tools.LspCpp.Backend.{Location, Symbol, Hover}
use mcp_tools.LspCpp.Mcp.Reply.{json_object}

abbrev keep : {B : Type 0} → Option B → List B → List B
keep none kept = kept
keep (some b) kept = b ∷ kept

-- `Iterator::filter_map`
abbrev pub filter_map : {A B : Type 0} → (A → Option B) → List A → List B
filter_map f [] = []
filter_map f (a ∷ rest) = keep (f a) (filter_map f rest)

abbrev without_scheme : Str → Option Str → Str
without_scheme uri none = uri
without_scheme uri (some path) = path

-- `n as u32 + 1`
abbrev counted_from_one : ℕ → ℕ
counted_from_one n = (n % 2 ^ 32 + 1) % 2 ^ 32

unfoldable pub parse_one_location : Json → Option Location
parse_one_location value = do
  uri ← get_str (str "uri") value
  range ← get (str "range") value
  start ← get (str "start") range
  line ← get_u64 (str "line") start
  column ← get_u64 (str "character") start
  some (record {
    path = without_scheme uri (strip_prefix (str "file://") uri);
    line = counted_from_one line;
    column = counted_from_one column;
  })

abbrev one_or_none : Option Location → List Location
one_or_none none = []
one_or_none (some l) = l ∷ []

unfoldable pub parse_locations : Json → List Location
unfolding parse_one_location
parse_locations (array items) = filter_map parse_one_location (list_of items)
parse_locations (object fields) = one_or_none (parse_one_location (object fields))
parse_locations _ = []

unfoldable pub parse_symbol : Json → Option Symbol
unfolding parse_one_location
parse_symbol v = do
  name ← get_str (str "name") v
  kind ← get_u64 (str "kind") v
  loc ← get (str "location") v
  location ← parse_one_location loc
  some (record {
    name = name;
    kind = kind % 2 ^ 32;
    location = location;
    container = get_str (str "containerName") v;
  })

unfoldable pub parse_symbols : Json → List Symbol
unfolding parse_symbol
parse_symbols (array items) = filter_map parse_symbol (list_of items)
parse_symbols _ = []

abbrev or_empty : Option Str → Str
or_empty none = []
or_empty (some s) = s

-- A part of a hover's text: the text itself, or an object that holds one.
abbrev part_of : Json → Option Str
part_of (text s) = some s
part_of value = get_str (str "value") value

abbrev pub join_lines : List Str → Str
join_lines [] = []
join_lines (s ∷ []) = s
join_lines (s ∷ t ∷ rest) = s ++ 10 ∷ join_lines (t ∷ rest)

unfoldable pub contents_text : Json → Str
contents_text (text s) = s
contents_text (object fields) = or_empty (get_str (str "value") (object fields))
contents_text (array items) = join_lines (filter_map part_of (list_of items))
contents_text _ = []

abbrev hover_of : Str → Option Hover
hover_of contents = if is_empty contents then none else some (record { contents = contents })

abbrev text_of : Option Json → Str
text_of none = []
text_of (some contents) = contents_text contents

unfoldable pub parse_hover : Json → Option Hover
unfolding contents_text
parse_hover null = none
parse_hover result = hover_of (text_of (get (str "contents") result))

abbrev document : Str → Str × Json
document path = (str "textDocument", json_object ((str "uri", text (str "file://" ++ path)) ∷ []))

-- `saturating_sub(1)`
abbrev place : ℕ → ℕ → Str × Json
place line column = (
  str "position",
  json_object ((str "line", nat (line - 1)) ∷ (str "character", nat (column - 1)) ∷ []),
)

unfoldable pub position_params : Str → ℕ → ℕ → Json
position_params path line column = json_object (document path ∷ place line column ∷ [])

unfoldable pub references_params : Str → ℕ → ℕ → Json
references_params path line column = json_object (
    document path
    ∷ place line column
    ∷ (str "context", json_object ((str "includeDeclaration", boolean true) ∷ []))
    ∷ [])
