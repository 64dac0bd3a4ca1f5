-- ===== src/LspCpp/Clangd/Launch.antt =====
-- lsp-cpp/src/clangd.rs: the settings of the shim, what they come from, and clangd's command line.
-- lsp-shim-core/src/compat.rs: a variable of the environment with its old name.
use mcp_tools.Prelude.{
  ℕ, ◌/◌, ◌%◌, ◌^◌, false, not, Option, none, some, List, [], ◌∷◌, ◌++◌, map, ltb, ◌||◌,
  if◌then◌else◌, Str, str, str_eq, split, trim, is_empty, contains, join_path,
}
use mcp_tools.Prelude.Decimal.{decimal, parse_usize}
use mcp_tools.Prelude.Int.{pos}
use mcp_tools.Prelude.Result.{Result, ok, err}
use mcp_tools.LspCpp.Error.{ShimError, no_compile_commands, no_index_file}
use mcp_tools.LspCpp.Clangd.{Os, IndexMode, narrow, full, hybrid, Clangd}

abbrev default_request_timeout_s : ℕ
default_request_timeout_s = 60

abbrev default_initialize_timeout_s : ℕ
default_initialize_timeout_s = 10

abbrev pub seed_headers_env : Str
seed_headers_env = str "LSP_CPP_SEED_HEADERS"

abbrev or_text : Option Str → Str → Str
or_text none d = d
or_text (some s) d = s

abbrev or_option : Option Str → Option Str → Option Str
or_option none other = other
or_option (some s) other = some s

abbrev non_empty : List Str → List Str
non_empty [] = []
non_empty (s ∷ rest) = let kept = non_empty rest in if is_empty s then kept else s ∷ kept

abbrev trimmed : List Str → List Str
trimmed [] = []
trimmed (s ∷ rest) = trim s ∷ trimmed rest

abbrev headers_of : Option Str → List Str
headers_of none = []
headers_of (some raw) = non_empty (trimmed (split b',' raw))

unfoldable pub env_or_legacy : (Str → Option Str) → Str → Str → Option Str
env_or_legacy env canonical legacy = or_option (env canonical) (env legacy)

unfoldable pub seed_headers_from_env : (Str → Option Str) → List Str
seed_headers_from_env env = headers_of (env seed_headers_env)

abbrev ue_seed_relatives : List Str
ue_seed_relatives =
    str "Engine/Source/Runtime/Engine/Classes/GameFramework/Actor.h"
    ∷ str "Engine/Source/Runtime/Engine/Classes/Components/SceneComponent.h"
    ∷ str "Engine/Source/Runtime/Engine/Classes/Components/PrimitiveComponent.h"
    ∷ str "Engine/Source/Runtime/Engine/Classes/Components/ActorComponent.h"
    ∷ str "Engine/Source/Runtime/Engine/Classes/Kismet/GameplayStatics.h"
    ∷ str "Engine/Source/Runtime/Engine/Classes/Sound/SoundBase.h"
    ∷ str "Engine/Source/Runtime/Engine/Classes/Materials/MaterialInstance.h"
    ∷ str "Engine/Source/Runtime/Engine/Classes/Materials/MaterialInstanceDynamic.h"
    ∷ str "Engine/Source/Runtime/Engine/Classes/Engine/DataTable.h"
    ∷ str "Engine/Source/Runtime/Engine/Classes/Kismet/DataTableFunctionLibrary.h"
    ∷ str "Engine/Source/Runtime/AIModule/Classes/AIController.h"
    ∷ str "Engine/Source/Runtime/InputCore/Classes/InputCoreTypes.h"
    ∷ []

unfoldable pub ue_default_seed_headers : Str → List Str
ue_default_seed_headers project_root = map (join_path project_root) ue_seed_relatives

unfoldable pub effective_seed_headers : (Str → Option Str) → Str → List Str
unfolding seed_headers_from_env ue_default_seed_headers
effective_seed_headers env project_root =
    let from_env = seed_headers_from_env env in
    if not (is_empty from_env)
    then from_env
    else if contains (str "UnrealEngine") project_root
    then ue_default_seed_headers project_root
    else []

abbrev index_file : (Str → Option Str) → Str
index_file env =
    or_text (env_or_legacy env (str "LSP_CPP_INDEX_FILE") (str "LURE_LSP_CPP_INDEX_FILE")) (
      join_path (or_text (env (str "HOME")) (str "/root"))
        (str ".cache/lsp-cpp-full-index/index.idx"))

-- `IndexMode::from_env`
unfoldable pub index_mode_from_env : (Str → Option Str) → IndexMode
unfolding env_or_legacy
index_mode_from_env env =
    let mode =
      or_text (env_or_legacy env (str "LSP_CPP_INDEX_MODE") (str "LURE_LSP_CPP_INDEX_MODE")) [] in
    if str_eq mode (str "full")
    then full (index_file env)
    else if str_eq mode (str "hybrid")
    then hybrid (index_file env)
    else narrow

-- `as u32`
abbrev cpus_of : Option ℕ → ℕ
cpus_of none = 4
cpus_of (some n) = n % 2 ^ 32

unfoldable pub default_clangd_jobs : Option ℕ → ℕ
default_clangd_jobs parallelism =
    let half = cpus_of parallelism / 2 in if ltb half 2 then 2 else half

-- `s.parse().ok()` for a `u32`
abbrev fits_u32 : Option ℕ → Option ℕ
fits_u32 none = none
fits_u32 (some n) = if ltb n (2 ^ 32) then some n else none

abbrev jobs_of : Option Str → Option ℕ
jobs_of none = none
jobs_of (some s) = fits_u32 (parse_usize s)

abbrev or_jobs : Option ℕ → ℕ → ℕ
or_jobs none d = d
or_jobs (some n) d = n

unfoldable pub new : {W : Type 0} → Os W → Str → Clangd
unfolding index_mode_from_env default_clangd_jobs
new os project_root = record {
  project_root = project_root;
  clangd_bin = or_text (os.env (str "CLANGD_BIN")) (str "clangd-19");
  log_path = or_text (os.env (str "CLANGD_LOG")) (str "/tmp/clangd.log");
  jobs =
      or_jobs (jobs_of (os.env (str "CLANGD_JOBS"))) (default_clangd_jobs os.available_parallelism);
  request_timeout_s = default_request_timeout_s;
  initialize_timeout_s = default_initialize_timeout_s;
  index_mode = index_mode_from_env os.env;
  child = none;
  stdin = false;
  stdout = false;
  next_id = pos 1;
  last_exit_status = none;
}

unfoldable pub with_index_mode : IndexMode → Clangd → Clangd
with_index_mode mode c = record c { index_mode = mode }

module _ {W : Type 0} (os : Os W) (w : W) where
  unfoldable pub resolve_compile_commands_dir : Str → Result Str ShimError
  resolve_compile_commands_dir root =
      if os.exists w (join_path root (str "compile_commands.narrow.json"))
        || os.exists w (join_path root (str "compile_commands.json"))
      then ok root
      else err (no_compile_commands root)

  unfoldable pub pick_compile_commands_path : Str → Result Str ShimError
  pick_compile_commands_path root =
      let whole = join_path root (str "compile_commands.json") in
      let narrowed = join_path root (str "compile_commands.narrow.json") in
      if os.exists w whole
      then ok whole
      else if os.exists w narrowed
      then ok narrowed
      else err (no_compile_commands root)

  -- An index file that is named must be there.
  abbrev present : Str → Result (Unit {0}) ShimError
  present path = if os.exists w path then ok tt else err (no_index_file path)

  unfoldable pub check_index_file : IndexMode → Result (Unit {0}) ShimError
  check_index_file narrow = ok tt
  check_index_file (full path) = present path
  check_index_file (hybrid path) = present path

abbrev background : List Str
background = str "--background-index" ∷ str "--background-index-priority=background" ∷ []

unfoldable pub index_args : IndexMode → List Str
index_args narrow = background
index_args (full path) = (str "--index-file=" ++ path) ∷ []
index_args (hybrid path) = (str "--index-file=" ++ path) ∷ background

unfoldable pub clangd_args : Clangd → Str → List Str
unfolding index_args
clangd_args c cc_dir =
    str "--header-insertion=never"
    ∷ str "--clang-tidy=false"
    ∷ str "--pch-storage=disk"
    ∷ (str "-j=" ++ decimal c.jobs)
    ∷ (str "--compile-commands-dir=" ++ cc_dir)
    ∷ index_args c.index_mode
