-- ===== src/LspCpp/Clangd/Shards.antt =====
-- lsp-cpp/src/clangd.rs: the files of a list of compile commands, and the shards of an index on disk.
use mcp_tools.Prelude.{
  ℕ, ◌+◌, Bool, false, Option, none, some, List, [], ◌∷◌, ◌++◌, any, if◌then◌else◌, Str, str,
  str_eq,
}
use mcp_tools.Prelude.Json.{Json, get_str}
use mcp_tools.Prelude.Result.{Result, ok, err}
use mcp_tools.LspCpp.Error.{IoError}

abbrev pub seen_in : Str → List Str → Bool
seen_in file seen = any (str_eq file) seen

-- The files of the entries, each at its first place only.
abbrev pub add_file : List Str → Option Str → List Str
add_file out none = out
add_file out (some file) = if seen_in file out then out else out ++ file ∷ []

abbrev pub distinct_files : List Str → List Json → List Str
distinct_files out [] = out
distinct_files out (entry ∷ rest) = distinct_files (add_file out (get_str (str "file") entry)) rest

-- An entry of a directory: its extension, and its length where that can be read.
pub record DirEntry : Type 0 where
  pub extension : Option Str
  pub size : Option ℕ

abbrev is_shard : DirEntry → Bool
is_shard e = named e.extension
  where
    named : Option Str → Bool
    named none = false
    named (some s) = str_eq s (str "idx")

abbrev count_entries : List DirEntry → ℕ
count_entries [] = 0
count_entries (e ∷ rest) =
    let others = count_entries rest in if is_shard e then others + 1 else others

abbrev size_of : Option ℕ → ℕ
size_of none = 0
size_of (some n) = n

abbrev sum_entries : List DirEntry → ℕ
sum_entries [] = 0
sum_entries (e ∷ rest) =
    let others = sum_entries rest in if is_shard e then size_of e.size + others else others

unfoldable pub count_shards : Result (List DirEntry) IoError → ℕ
count_shards (ok entries) = count_entries entries
count_shards (err e) = 0

unfoldable pub sum_shard_bytes : Result (List DirEntry) IoError → ℕ
sum_shard_bytes (ok entries) = sum_entries entries
sum_shard_bytes (err e) = 0
