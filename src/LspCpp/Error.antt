-- ===== src/LspCpp/Error.antt =====
-- lsp-cpp/src/error.rs: every way in which a call of clangd fails, and the text that a caller sees.
use mcp_tools.Prelude.{ℕ, ◌++◌, Str, str}
use mcp_tools.Prelude.Decimal.{decimal}

-- The kinds of `io::ErrorKind` that the program tells apart.
pub data ErrorKind : Type 0 where
  broken_pipe : ErrorKind
  unexpected_eof : ErrorKind
  connection_aborted : ErrorKind
  connection_reset : ErrorKind
  not_found : ErrorKind
  invalid_data : ErrorKind
  another_kind : ErrorKind

pub record IoError : Type 0 where
  pub kind : ErrorKind
  pub message : Str

pub data ShimError : Type 0 where
  clangd_missing : Str → ShimError
  no_compile_commands : Str → ShimError
  no_index_file : Str → ShimError
  initialize_timeout : ℕ → Str → ShimError
  warmup_timeout : Str → ℕ → Str → ShimError
  request_timeout : Str → ℕ → Str → ShimError
  clangd_busy : Str → ℕ → Str → Str → ShimError
  queue_depth_exceeded : ℕ → ℕ → ℕ → ShimError
  clangd_exited : Str → Str → ShimError
  protocol : Str → ShimError
  io : IoError → ShimError
  json : Str → ShimError

-- `Display`
unfoldable pub display : ShimError → Str
display (clangd_missing path) =
    str "clangd binary not found (looked at "
    ++ path
    ++ str "); install clangd-19 or set CLANGD_BIN"
display (no_compile_commands root) =
    str "compile_commands.json not found under "
    ++ root
    ++ str "; run a compile_commands narrowing helper or generate the full DB first"
display (no_index_file path) =
    str "pre-built clangd index file not found at "
    ++ path
    ++ str "; build it with `clangd-indexer` or set LSP_CPP_INDEX_MODE=narrow to skip"
display (initialize_timeout timeout_s log_path) =
    str "clangd initialize handshake timed out after "
    ++ decimal timeout_s
    ++ str "s; clangd log at "
    ++ log_path
display (warmup_timeout probe timeout_s log_path) =
    str "clangd warm-up gate timed out after "
    ++ decimal timeout_s
    ++ str "s; probe="
    ++ probe
    ++ str " returned []; clangd log "
    ++ log_path
display (request_timeout method timeout_s log_path) =
    str "clangd request timed out after "
    ++ decimal timeout_s
    ++ str "s ("
    ++ method
    ++ str "); see "
    ++ log_path
    ++ str " for last heartbeat"
display (clangd_busy method timeout_s current_status log_path) =
    str "clangd busy after "
    ++ decimal timeout_s
    ++ str "s ("
    ++ method
    ++ str "); status="
    ++ current_status
    ++ str "; log: "
    ++ log_path
display (queue_depth_exceeded in_flight capacity retry_after_s) =
    str "clangd-wrapper queue full ("
    ++ decimal in_flight
    ++ str "/"
    ++ decimal capacity
    ++ str "); retry after "
    ++ decimal retry_after_s
    ++ str "s — this is wrapper-side load shedding, clangd may be healthy"
display (clangd_exited status log_path) =
    str "clangd exited unexpectedly (status=" ++ status ++ str "); log: " ++ log_path
display (protocol message) = str "clangd JSON-RPC error: " ++ message
display (io error) = str "I/O error: " ++ error.message
display (json message) = str "JSON error: " ++ message
