-- ===== src/LspRust/Client.antt =====
-- lsp-rust/src/lsp.rs: the client and its settings, over an interface of the operating system.
-- lsp-rust/src/compat.rs: the variables of the environment with their old names.
use mcp_tools.Prelude.{ℕ, ◌+◌, ◌%◌, ◌^◌, Bool, false, Option, none, some, List, Str, str}
use mcp_tools.Prelude.Decimal.{parse_usize}
use mcp_tools.Prelude.Json.{Json}
use mcp_tools.Prelude.Action.{Action}
use mcp_tools.LspCpp.Error.{IoError}
use mcp_tools.LspCpp.Clangd.Launch.{env_or_legacy}

abbrev default_timeout_secs : ℕ
default_timeout_secs = 60

abbrev pub initialize_timeout_secs : ℕ
initialize_timeout_secs = 15

abbrev default_log_path : Str
default_log_path = str "/tmp/lsp-rust.log"

-- A process that was started, and whether its pipes are there.
pub record Started : Type 0 where
  pub process : ℕ
  pub stdin : Bool
  pub stdout : Bool

-- What the operating system does for the client. `open_log` opens the log and clones its handle;
-- `send` and `recv` write and read one framed message, `write` and `flush` bytes; `try_wait` tells
-- whether the process has ended; `now_ns` is the clock in nanoseconds.
pub record Os (W : Type 0) : Type 0 where
  pub env : Str → Option Str
  pub open_log : Str → Action W IoError (Unit {0})
  pub spawn_process : Str → Action W IoError Started
  pub try_wait : ℕ → Action W IoError Bool
  pub kill_and_wait : ℕ → W → W
  pub sleep : ℕ → W → W
  pub send : Json → Action W IoError (Unit {0})
  pub write : List ℕ → Action W IoError (Unit {0})
  pub flush : Action W IoError (Unit {0})
  pub recv : Action W IoError Json
  pub now_ns : W → ℕ

-- The pipes are there or they are not; a child is its process number.
pub record RustAnalyzerClient : Type 0 where
  pub workspace : Str
  pub binary : Str
  pub log_path : Str
  pub timeout_s : ℕ
  pub next_id : ℕ
  pub child : Option ℕ
  pub stdin : Bool
  pub stdout : Bool

-- The client with the machine that it runs on.
pub record Machine (W : Type 0) : Type 0 where
  pub client : RustAnalyzerClient
  pub world : W

abbrev rust_analyzer_env : (Str → Option Str) → Option Str
rust_analyzer_env env = env_or_legacy env (str "LSP_RUST_ANALYZER") (str "LURE_LSP_RUST_ANALYZER")

abbrev timeout_env : (Str → Option Str) → Option Str
timeout_env env = env_or_legacy env (str "LSP_TIMEOUT_SECS") (str "LURE_LSP_TIMEOUT_SECS")

abbrev log_file_env : (Str → Option Str) → Option Str
log_file_env env = env_or_legacy env (str "LSP_LOG_FILE") (str "LURE_LSP_LOG_FILE")

abbrev or_else : {A : Type 0} → Option A → A → A
or_else none d = d
or_else (some a) d = a

abbrev parsed_secs : Option Str → Option ℕ
parsed_secs none = none
parsed_secs (some env_val) = parse_usize env_val

unfoldable pub resolve_timeout : (Str → Option Str) → Option ℕ → ℕ
unfolding env_or_legacy
resolve_timeout env (some secs) = secs
resolve_timeout env none = or_else (parsed_secs (timeout_env env)) default_timeout_secs

unfoldable pub resolve_log_path : (Str → Option Str) → Str
unfolding env_or_legacy
resolve_log_path env = or_else (log_file_env env) default_log_path

unfoldable pub new : (Str → Option Str) → Str → Option ℕ → RustAnalyzerClient
unfolding env_or_legacy resolve_timeout resolve_log_path
new env workspace cli_timeout = record {
  workspace = workspace;
  binary = or_else (rust_analyzer_env env) (str "rust-analyzer");
  log_path = resolve_log_path env;
  timeout_s = resolve_timeout env cli_timeout;
  next_id = 1;
  child = none;
  stdin = false;
  stdout = false;
}

-- `AtomicU64::fetch_add`
unfoldable pub next_request_id : RustAnalyzerClient → ℕ × RustAnalyzerClient
next_request_id c = (c.next_id, record c { next_id = (c.next_id + 1) % 2 ^ 64 })
