-- ===== src/LspRust/Error.antt =====
-- lsp-rust/src/lsp.rs: every way in which a request of rust-analyzer fails. A JSON error is its text;
-- the time limits are whole seconds.
use mcp_tools.Prelude.{ℕ, Option, ◌++◌, Str, str}
use mcp_tools.Prelude.Decimal.{decimal}
use mcp_tools.Prelude.Signed.{decimal_ℤ}
use mcp_tools.Prelude.Int.{ℤ}
use mcp_tools.LspCpp.Error.{IoError}

pub data LspShimError : Type 0 where
  spawn : (binary : Str) → (source : IoError) → LspShimError
  lsp : (code : ℤ) → (message : Str) → (retry_after_ms : Option ℕ) → LspShimError
  timeout : (method : Str) → (timeout_s : ℕ) → (log_path : Str) → LspShimError
  protocol : Str → LspShimError
  io : IoError → LspShimError
  json : Str → LspShimError
  internal : Str → LspShimError

-- `Display`
unfoldable pub display : LspShimError → Str
display (spawn binary source) =
    str "rust-analyzer spawn failed (binary=" ++ binary ++ str "): " ++ source.message
display (lsp code message retry_after_ms) =
    str "rust-analyzer LSP error " ++ decimal_ℤ code ++ str ": " ++ message
display (timeout method timeout_s log_path) =
    str "LSP request "
    ++ method
    ++ str " timed out after "
    ++ decimal timeout_s
    ++ str "s; log="
    ++ log_path
display (protocol message) = str "LSP protocol error: " ++ message
display (io error) = str "I/O error: " ++ error.message
display (json message) = str "JSON error: " ++ message
display (internal message) = str "internal error: " ++ message
