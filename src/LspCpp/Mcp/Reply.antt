-- ===== src/LspCpp/Mcp/Reply.antt =====
-- lsp-cpp/src/mcp.rs: the replies, and lsp-shim-core/src/mcp_proto.rs: the names and the codes.
use mcp_tools.Prelude.{ℕ, Option, none, some, List, [], ◌∷◌, false, Str, str}
use mcp_tools.Prelude.Int.{ℤ, negsuc}
use mcp_tools.Prelude.Json.{
  Json, boolean, number, text, array, object, Fields, end_fields, field, items_of,
}

abbrev pub initialize : Str
initialize = str "initialize"

abbrev pub initialized : Str
initialized = str "notifications/initialized"

abbrev pub tools_list : Str
tools_list = str "tools/list"

abbrev pub tools_call : Str
tools_call = str "tools/call"

abbrev pub shutdown : Str
shutdown = str "shutdown"

-- `negsuc n` is -(n + 1).
abbrev pub invalid_params : ℤ
invalid_params = negsuc 32601

abbrev pub method_not_found : ℤ
method_not_found = negsuc 32600

abbrev pub internal_error : ℤ
internal_error = negsuc 32602

abbrev pub parse_error : ℤ
parse_error = negsuc 32699

abbrev pub supervisor_max_retries_code : ℤ
supervisor_max_retries_code = negsuc 32999

abbrev pub queue_retry_after_s : ℕ
queue_retry_after_s = 1

-- `json!({ ... })`
abbrev pub fields_of : List (Str × Json) → Fields
fields_of [] = end_fields
fields_of ((name, value) ∷ rest) = field name value (fields_of rest)

abbrev pub json_object : List (Str × Json) → Json
json_object fields = object (fields_of fields)

unfoldable pub success_response : Json → Json → Json
success_response id result =
    json_object ((str "jsonrpc", text (str "2.0")) ∷ (str "id", id) ∷ (str "result", result) ∷ [])

abbrev data_field : Option Json → List (Str × Json)
data_field none = []
data_field (some value) = (str "data", value) ∷ []

unfoldable pub error_response : Json → ℤ → Str → Option Json → Json
error_response id code message value =
    let error =
      json_object ((str "code", number code) ∷ (str "message", text message) ∷ data_field value) in
    json_object ((str "jsonrpc", text (str "2.0")) ∷ (str "id", id) ∷ (str "error", error) ∷ [])

-- The content of a tool's answer, by the text of its payload.
abbrev pub tool_result : Str → Json
tool_result payload = json_object (
    (
      str "content",
      array (
          items_of
            (json_object ((str "type", text (str "text")) ∷ (str "text", text payload) ∷ []) ∷ [])),
    )
    ∷ (str "isError", boolean false)
    ∷ [])

-- The version is the one of the crate's manifest.
unfoldable pub initialize_result : Str → Json
initialize_result version = json_object (
    (str "protocolVersion", text (str "2024-11-05"))
    ∷ (str "capabilities", json_object ((str "tools", json_object []) ∷ []))
    ∷ (
      str "serverInfo",
      json_object ((str "name", text (str "lsp-cpp")) ∷ (str "version", text version) ∷ []),
    )
    ∷ [])

-- A property of a tool's input, with its type, and its description where it has one.
abbrev pub typed : Str → Option Str → Json
typed kind none = json_object ((str "type", text kind) ∷ [])
typed kind (some description) =
    json_object ((str "type", text kind) ∷ (str "description", text description) ∷ [])

abbrev texts : List Str → List Json
texts [] = []
texts (s ∷ rest) = text s ∷ texts rest

abbrev required_field : List Str → List (Str × Json)
required_field [] = []
required_field (s ∷ rest) = (str "required", array (items_of (texts (s ∷ rest)))) ∷ []

abbrev pub tool : Str → Str → List (Str × Json) → List Str → Json
tool name description properties required = json_object (
    (str "name", text name)
    ∷ (str "description", text description)
    ∷ (
      str "inputSchema",
      json_object (
          (str "type", text (str "object"))
          ∷ (str "properties", json_object properties)
          ∷ required_field required),
    )
    ∷ [])

abbrev pub position : List Str
position = str "file" ∷ str "line" ∷ str "column" ∷ []

abbrev pub plain_position : List (Str × Json)
plain_position =
    (str "file", typed (str "string") none)
    ∷ (str "line", typed (str "integer") none)
    ∷ (str "column", typed (str "integer") none)
    ∷ []

unfoldable pub tools_list_result : Json
tools_list_result = json_object (
    (
      str "tools",
      array (
          items_of (
            tool (str "workspace_symbol")
              (str
                "Search the indexed C++ workspace for symbols matching `query`. Returns up to N matches with file:line:column locations.")
              ((
                str "query",
                typed (str "string") (some (str "Substring or fuzzy match against symbol name.")),
              )
                ∷ [])
              (str "query" ∷ [])
            ∷ tool (str "definition")
                (str "Resolve the symbol at `file:line:column` to its definition site(s).")
                ((
                  str "file",
                  typed (str "string")
                      (some (str "Absolute path to a .cpp/.h under the indexed project.")),
                )
                  ∷ (str "line", typed (str "integer") (some (str "1-based line number.")))
                  ∷ (str "column", typed (str "integer") (some (str "1-based column number.")))
                  ∷ [])
                position
            ∷ tool (str "references")
                (str "Find every reference to the symbol at `file:line:column`.") plain_position
                position
            ∷ tool (str "hover")
                (str "Return clangd's hover documentation for the symbol at `file:line:column`.")
                plain_position position
            ∷ tool (str "lsp_cpp_status")
                (str
                  "Return the supervisor's view of the wrapped clangd subprocess: {clangd_pid, alive, uptime_s, restart_count, last_restart_reason, last_exit_status, supervisor_state, queue_in_flight, queue_capacity, try_wait_total_ns, alive_probe_error?}. The `try_wait_total_ns` field is the cumulative wall cost (nanoseconds) of the supervisor's `Child::try_wait` liveness probe across the wrapper-process lifetime — Standing-Rule-14 perf-window accumulator for the per-request poll cadence; intended for offline regression checks. The `alive_probe_error` field is OPTIONAL: present (string `\"io error: <msg>\"`) only when the OS-level alive probe (`Child::try_wait`) returned an `io::Error`; omitted on the success path. Use this RPC instead of `kill -SIGHUP <wrapper-pid>` to probe wrapper health — sending SIGHUP terminates the wrapper itself (no auto-respawn under stdio MCP) and forces a CC-session restart, as happened on 2026-04-27 ~17:30 Z.")
                [] []
            ∷ tool (str "build_full_index")
                (str
                  "Pre-warm clangd's persistent index by feeding the first `max_tus` translation units from the project's compile_commands.json (defaults to 5000 — large monorepos can have 100k+ entries and uncapped runs take many hours). Returns {tus_opened, skipped_io_errors, wall_seconds, shards_on_disk_after, shards_size_bytes}. Blocking call; tail /tmp/lsp-cpp.log for progress while in flight.")
                ((
                  str "max_tus",
                  typed (str "integer") (
                      some (
                        str
                          "Maximum number of TUs to open (default 5000). Cap exists because the full DB is ~150k TUs and a no-cap run takes many hours. Lower values (e.g. 50) are useful for smoke-testing the wiring.")),
                )
                  ∷ [])
                []
            ∷ [])),
    )
    ∷ [])
