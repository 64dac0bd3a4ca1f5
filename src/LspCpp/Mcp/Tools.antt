-- ===== src/LspCpp/Mcp/Tools.antt =====
-- lsp-cpp/src/mcp.rs: the tools that ask clangd, from their arguments to their payload.
use mcp_tools.Prelude.{
  ℕ, ◌%◌, ◌^◌, ◌==◌, not, Bool, Option, none, some, List, [], ◌∷◌, map, Str, str, str_eq, is_empty,
  if◌then◌else◌,
}
use mcp_tools.Prelude.Result.{ok_or, ensure}
use mcp_tools.Prelude.Action.{Action, ◌>>=◌, ◌>>◌, reads, pure}
use mcp_tools.Prelude.Json.{
  Json, null, boolean, text, array, items_of, get_str, get_u64, text_or_null, nat, unwrap_or,
}
use mcp_tools.LspCpp.Error.{ShimError, protocol}
use mcp_tools.LspCpp.Backend.{LspBackend, Location, Symbol, Hover, BuildFullIndexReport}
use mcp_tools.LspCpp.Mcp.Reply.{json_object}

-- `serde_json::to_value`
abbrev location_json : Location → Json
location_json l =
    json_object
      ((str "path", text l.path) ∷ (str "line", nat l.line) ∷ (str "column", nat l.column) ∷ [])

abbrev symbol_json : Symbol → Json
symbol_json s = json_object (
    (str "name", text s.name)
    ∷ (str "kind", nat s.kind)
    ∷ (str "location", location_json s.location)
    ∷ (str "container", text_or_null s.container)
    ∷ [])

abbrev hover_json : Option Hover → Json
hover_json none = null
hover_json (some h) = json_object ((str "contents", text h.contents) ∷ [])

abbrev locations_json : List Location → Json
locations_json locations = array (items_of (map location_json locations))

abbrev pub build_full_index_default_max_tus : ℕ
build_full_index_default_max_tus = 5000

pub data PositionKind : Type 0 where
  definition : PositionKind
  references : PositionKind
  hover : PositionKind

-- `secs_f64` writes a time in seconds.
module _ {W : Type 0} (b : LspBackend W) (secs_f64 : ℕ → Json) where
  abbrev report_json : BuildFullIndexReport → Json
  report_json r = json_object (
      (str "tus_opened", nat r.tus_opened)
      ∷ (str "skipped_io_errors", nat r.skipped_io_errors)
      ∷ (str "wall_seconds", secs_f64 r.wall)
      ∷ (str "shards_on_disk_after", nat r.shards_on_disk_after)
      ∷ (str "shards_size_bytes", nat r.shards_size_bytes)
      ∷ (str "cap_fired", boolean r.cap_fired)
      ∷ [])

  -- What an argument must be, or the call is refused before clangd is asked.
  abbrev require : {A : Type 0} → Option A → Str → Action W ShimError A
  require value message = reads (λ w. ok_or value (protocol message))

  abbrev refuse_if : Bool → Str → Action W ShimError (Unit {0})
  refuse_if test message = reads (λ w. ensure (not test) (protocol message))

  unfoldable pub call_workspace_symbol : Json → Action W ShimError Json
  call_workspace_symbol args = do
    query ← require (get_str (str "query") args) (str "workspace_symbol requires `query` (string)")
    refuse_if (is_empty query) (str "workspace_symbol `query` must not be empty")
    b.spawn
    symbols ← b.workspace_symbol query
    pure (array (items_of (map symbol_json symbols)))

  abbrev pub position_call : PositionKind → Str → ℕ → ℕ → Action W ShimError Json
  position_call definition file line column = do
    found ← b.definition file line column
    pure (locations_json found)
  position_call references file line column = do
    found ← b.references file line column
    pure (locations_json found)
  position_call hover file line column = do
    found ← b.hover file line column
    pure (hover_json found)

  -- `as u32`
  unfoldable pub call_position : PositionKind → Json → Action W ShimError Json
  call_position kind args = do
    file ← require (get_str (str "file") args) (str "missing `file` (string)")
    line ← require (get_u64 (str "line") args) (str "missing `line` (integer)")
    column ← require (get_u64 (str "column") args) (str "missing `column` (integer)")
    b.spawn
    position_call kind file (line % 2 ^ 32) (column % 2 ^ 32)

  unfoldable pub call_build_full_index : Json → Action W ShimError Json
  call_build_full_index args = do
    let max_tus = unwrap_or (get_u64 (str "max_tus") args) build_full_index_default_max_tus
    refuse_if (max_tus == 0) (str "build_full_index `max_tus` must be > 0")
    report ← b.build_full_index max_tus
    pure (report_json report)

  -- The tool of this name, if there is one.
  unfoldable pub tool_of : Str → Json → Option (Action W ShimError Json)
  tool_of name args =
      if str_eq name (str "workspace_symbol")
      then some (call_workspace_symbol args)
      else if str_eq name (str "definition")
      then some (call_position definition args)
      else if str_eq name (str "references")
      then some (call_position references args)
      else if str_eq name (str "hover")
      then some (call_position hover args)
      else if str_eq name (str "build_full_index")
      then some (call_build_full_index args)
      else none
