-- ===== src/LspRust/Mcp.antt =====
-- lsp-rust/src/mcp.rs: the server's tools and its messages. The form of a reply, `success_response` and
-- `error_response`, is the one of lsp-cpp/src/mcp.rs, letter by letter.
use mcp_tools.Prelude.{
  ℕ, ◌%◌, ◌^◌, Option, none, some, List, [], ◌∷◌, ◌++◌, Str, str, str_eq, if◌then◌else◌,
}
use mcp_tools.Prelude.Result.{Result, ok, err, ok_or}
use mcp_tools.Prelude.Action.{Action, ◌>>=◌, reads}
use mcp_tools.Prelude.Json.{
  Json, number, text, array, items_of, object, end_fields, get, get_str, get_u64, nat, unwrap_or,
}
use mcp_tools.LspCpp.Mcp.Reply.{
  success_response, error_response, tool_result, json_object, tool, typed, position, plain_position,
  invalid_params, method_not_found, internal_error,
}
use mcp_tools.LspRust.Error.{LspShimError, lsp, timeout, protocol, io, json, internal, display}
use mcp_tools.LspRust.Client.{Os, Machine}
use mcp_tools.LspRust.Answers.{Serde}
use mcp_tools.LspRust.Requests
use mcp_tools.LspRust.Requests.{workspace_symbols, diagnostics, wait_for_indexing}

-- The reader and the writers of JSON.
pub record Format : Type 0 where
  pub from_str : Str → Result Json Str
  pub to_string : Json → Result Str Str
  pub to_string_pretty : Json → Str

unfoldable pub error_kind : LspShimError → Str
error_kind (LspShimError.spawn binary source) = str "spawn"
error_kind (lsp code message retry_after_ms) = str "lsp"
error_kind (timeout method timeout_s log_path) = str "timeout"
error_kind (protocol e) = str "protocol"
error_kind (io e) = str "io"
error_kind (json e) = str "json"
error_kind (internal e) = str "internal"

unfoldable pub initialize_result : Str → Json
initialize_result version = json_object (
    (str "protocolVersion", text (str "2024-11-05"))
    ∷ (str "capabilities", json_object ((str "tools", json_object []) ∷ []))
    ∷ (
      str "serverInfo",
      json_object ((str "name", text (str "lsp-rust")) ∷ (str "version", text version) ∷ []),
    )
    ∷ [])

unfoldable pub tools_list_result : Json
tools_list_result = json_object (
    (
      str "tools",
      array (
          items_of (
            tool (str "definition")
              (str
                "Resolve the symbol at `file:line:column` (1-based) to its definition site(s) via rust-analyzer's textDocument/definition.")
              ((
                str "file",
                typed (str "string")
                    (some (str "Absolute path to a .rs file under the indexed workspace.")),
              )
                ∷ (str "line", typed (str "integer") (some (str "1-based line number.")))
                ∷ (str "column", typed (str "integer") (some (str "1-based column number.")))
                ∷ [])
              position
            ∷ tool (str "references")
                (str
                  "Find every reference to the symbol at `file:line:column` via rust-analyzer's textDocument/references.")
                plain_position position
            ∷ tool (str "hover")
                (str
                  "Return rust-analyzer's hover documentation for the symbol at `file:line:column`.")
                plain_position position
            ∷ tool (str "workspace_symbols")
                (str "Fuzzy workspace-wide symbol search via workspace/symbol.")
                ((
                  str "query",
                  typed (str "string") (some (str "Substring or fuzzy match against symbol name.")),
                )
                  ∷ [])
                (str "query" ∷ [])
            ∷ tool (str "diagnostics")
                (str
                  "Pull current diagnostic set for one file via textDocument/diagnostic (LSP 3.17 pull-diagnostics).")
                ((str "file", typed (str "string") none) ∷ []) (str "file" ∷ [])
            ∷ tool (str "wait_for_indexing")
                (str
                  "Block until rust-analyzer's symbol-index output stabilises across two successive samples. Replaces zeenix wrapper's stderr substring scan with an explicit protocol-driven poll.")
                [] []
            ∷ [])),
    )
    ∷ [])

pub data PositionKind : Type 0 where
  definition references hover : PositionKind

module _ {W : Type 0} (os : Os W) (serde : Serde) (process_id : ℕ) (version : Str) where
  abbrev required : {A : Type 0} → Option A → Str → Action (Machine W) LspShimError A
  required value complaint = reads (λ m. ok_or value (protocol complaint))

  abbrev position_call : PositionKind → Str → ℕ → ℕ → Action (Machine W) LspShimError Json
  position_call definition = Requests.definition os serde process_id version
  position_call references = Requests.references os serde process_id version
  position_call hover = Requests.hover os serde process_id version

  -- `as u32`
  unfoldable pub call_position : Json → PositionKind → Action (Machine W) LspShimError Json
  call_position args kind = do
    file ← required (get_str (str "file") args) (str "missing `file` (string)")
    line ← required (get_u64 (str "line") args) (str "missing `line` (integer)")
    column ← required (get_u64 (str "column") args) (str "missing `column` (integer)")
    position_call kind file (line % 2 ^ 32) (column % 2 ^ 32)

  unfoldable pub call_workspace_symbols : Json → Action (Machine W) LspShimError Json
  call_workspace_symbols args = do
    query ←
        required (get_str (str "query") args) (str "workspace_symbols requires `query` (string)")
    workspace_symbols os serde process_id version query

  unfoldable pub call_diagnostics : Json → Action (Machine W) LspShimError Json
  call_diagnostics args = do
    file ← required (get_str (str "file") args) (str "diagnostics requires `file` (string)")
    diagnostics os serde process_id version file

  -- The action of a tool, if there is a tool of this name.
  unfoldable pub tool_of : Str → Json → Option (Action (Machine W) LspShimError Json)
  unfolding call_position call_workspace_symbols call_diagnostics
  tool_of name args =
      if str_eq name (str "definition")
      then some (call_position args definition)
      else if str_eq name (str "references")
      then some (call_position args references)
      else if str_eq name (str "hover")
      then some (call_position args hover)
      else if str_eq name (str "workspace_symbols")
      then some (call_workspace_symbols args)
      else if str_eq name (str "diagnostics")
      then some (call_diagnostics args)
      else if str_eq name (str "wait_for_indexing")
      then some (wait_for_indexing os serde process_id version)
      else none

  module _ (format : Format) where
    abbrev retry_field : Option ℕ → List (Str × Json)
    retry_field none = []
    retry_field (some ms) = (str "retry_after_ms", nat ms) ∷ []

    abbrev lsp_fields : LspShimError → List (Str × Json)
    lsp_fields (lsp code message retry_after_ms) =
        (str "lsp_code", number code) ∷ retry_field retry_after_ms
    lsp_fields _ = []

    unfoldable pub reply_of : Json → Result Json LspShimError → Json
    unfolding error_kind display
    reply_of id (ok payload) = success_response id (tool_result (format.to_string_pretty payload))
    reply_of id (err e) =
        error_response id internal_error (display e)
          (some (json_object ((str "error_kind", text (error_kind e)) ∷ lsp_fields e)))

    unfoldable pub call_tool :
        Json → Str → Option (Action (Machine W) LspShimError Json) → Machine W → Json × Machine W
    unfolding reply_of
    call_tool id name none m = (
      error_response id method_not_found (str "unknown tool: " ++ name)
          (some (json_object ((str "error_kind", text (str "unknown_tool")) ∷ []))),
      m,
    )
    call_tool id name (some call) m = let (result, m₁) = call m in (reply_of id result, m₁)

    unfoldable pub named_call : Json → Json → Option Str → Machine W → Json × Machine W
    unfolding call_tool tool_of
    named_call id params none m =
        (error_response id invalid_params (str "tools/call missing `name`") none, m)
    named_call id params (some name) m =
        call_tool id name
          (tool_of name (unwrap_or (get (str "arguments") params) (object end_fields))) m

    unfoldable pub handle_tools_call : Json → Json → Machine W → Json × Machine W
    unfolding named_call
    handle_tools_call id params m = named_call id params (get_str (str "name") params) m
