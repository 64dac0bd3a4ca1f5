-- ===== src/CodexStdio/Paths.antt =====
-- `std::path` on Unix, as codex-stdio/src/run_task.rs uses it, and its `lexical_resolve`.
use mcp_tools.Prelude.{
  Bool, true, false, ◌&&◌, ◌||◌, List, [], ◌∷◌, if◌then◌else◌, is_empty, Str, str, str_eq,
  starts_with, split, split_inclusive, map,
}

pub data Component : Type 0 where
  root_dir : Component
  cur_dir : Component
  parent_dir : Component
  normal : Str → Component

abbrev pub component_of : Str → Component
component_of piece = if str_eq piece (str "..") then parent_dir else normal piece

abbrev pub components_within : List Str → List Component
components_within [] = []
components_within (piece ∷ rest) =
    let later = components_within rest in
    if is_empty piece || str_eq piece (str ".") then later else component_of piece ∷ later

-- A dot is kept where a relative path begins with it.
abbrev relative_components : List Str → List Component
relative_components [] = []
relative_components (piece ∷ rest) =
    if str_eq piece (str ".")
    then cur_dir ∷ components_within rest
    else components_within (piece ∷ rest)

abbrev pub is_absolute : Str → Bool
is_absolute path = starts_with (str "/") path

-- `Path::components`
unfoldable pub components : Str → List Component
components path =
    if is_absolute path
    then root_dir ∷ components_within (split b'/' path)
    else relative_components (split b'/' path)

abbrev pub same_component : Component → Component → Bool
same_component root_dir root_dir = true
same_component cur_dir cur_dir = true
same_component parent_dir parent_dir = true
same_component (normal a) (normal b) = str_eq a b
same_component _ _ = false

-- `Path::starts_with`
unfoldable pub starts_with_path : List Component → List Component → Bool
starts_with_path path [] = true
starts_with_path [] (b ∷ base) = false
starts_with_path (c ∷ path) (b ∷ base) = same_component c b && starts_with_path path base

-- What is resolved so far stands with its last component first.
abbrev pub push_parent : List Component → List Component
push_parent (normal name ∷ out) = out
push_parent out = parent_dir ∷ out

abbrev pub push : Component → List Component → List Component
push parent_dir out = push_parent out
push cur_dir out = out
push other out = other ∷ out

abbrev pub resolve_onto : List Component → List Component → List Component
resolve_onto out [] = out
resolve_onto out (c ∷ path) = resolve_onto (push c out) path

abbrev pub reverse_onto : List Component → List Component → List Component
reverse_onto out [] = out
reverse_onto out (c ∷ path) = reverse_onto (c ∷ out) path

unfoldable pub lexical_resolve : List Component → List Component
lexical_resolve path = reverse_onto [] (resolve_onto [] path)

-- `str::lines`: a line ends in a line feed, with a carriage return in front of it or not.
abbrev strip_end : Str → Str
strip_end [] = []
strip_end (c ∷ []) = if str_eq (c ∷ []) (str "\n") then [] else c ∷ []
strip_end (c ∷ d ∷ []) = if str_eq (c ∷ d ∷ []) (str "\r\n") then [] else c ∷ strip_end (d ∷ [])
strip_end (c ∷ d ∷ e ∷ s) = c ∷ strip_end (d ∷ e ∷ s)

unfoldable pub lines : Str → List Str
lines s = map strip_end (split_inclusive s)
