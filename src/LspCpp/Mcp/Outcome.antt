-- ===== src/LspCpp/Mcp/Outcome.antt =====
-- lsp-cpp/src/mcp.rs: what the supervisor is told of a call. `debug` is the `Debug` form of a text.
use mcp_tools.Prelude.{
  ℕ, Option, none, some, ◌++◌, Str, str, str_eq, strip_prefix, if◌then◌else◌, Bool, true, false,
}
use mcp_tools.Prelude.Int.{ℤ}
use mcp_tools.Prelude.Signed.{parse_i32}
use mcp_tools.Prelude.Result.{Result, ok, err}
use mcp_tools.LspCpp.Error.{
  ShimError, ErrorKind, clangd_missing, no_compile_commands, no_index_file, initialize_timeout,
  warmup_timeout, request_timeout, clangd_busy, queue_depth_exceeded, clangd_exited, protocol, io,
  json,
}
use mcp_tools.LspCpp.Supervisor.{
  SupervisorPolicy, RestartReason, child_exited, child_signaled, wait_failed, record_spawn,
  record_exit,
}

unfoldable pub error_kind : ShimError → Str
error_kind (clangd_missing path) = str "clangd_missing"
error_kind (no_compile_commands root) = str "no_compile_commands"
error_kind (no_index_file path) = str "no_index_file"
error_kind (initialize_timeout timeout_s log_path) = str "initialize_timeout"
error_kind (warmup_timeout probe timeout_s log_path) = str "warmup_timeout"
error_kind (request_timeout method timeout_s log_path) = str "request_timeout"
error_kind (clangd_busy method timeout_s current_status log_path) = str "clangd_busy"
error_kind (queue_depth_exceeded in_flight capacity retry_after_s) = str "queue_depth_exceeded"
error_kind (clangd_exited status log_path) = str "clangd_exited"
error_kind (protocol message) = str "protocol"
error_kind (io error) = str "io"
error_kind (json message) = str "json"

-- The kinds of I/O errors that a dead child causes.
unfoldable pub is_gone : ErrorKind → Bool
is_gone ErrorKind.broken_pipe = true
is_gone ErrorKind.unexpected_eof = true
is_gone ErrorKind.connection_aborted = true
is_gone ErrorKind.connection_reset = true
is_gone _ = false

module _ (debug : Str → Str) where
  abbrev unparsed : Str → RestartReason
  unparsed s = wait_failed (str "unparsed exit status " ++ debug s)

  abbrev signal_reason : Str → Option ℤ → RestartReason
  signal_reason s (some signal) = child_signaled signal
  signal_reason s none = unparsed s

  abbrev after_signal : Str → Option Str → RestartReason
  after_signal s (some rest) = signal_reason s (parse_i32 rest)
  after_signal s none = unparsed s

  abbrev code_reason : Str → Option ℤ → RestartReason
  code_reason s (some code) = child_exited code
  code_reason s none = after_signal s (strip_prefix (str "signal=") s)

  abbrev after_code : Str → Option Str → RestartReason
  after_code s none = after_signal s (strip_prefix (str "signal=") s)
  after_code s (some rest) =
      if str_eq rest (str "?")
      then wait_failed (str "platform did not provide exit status")
      else code_reason s (parse_i32 rest)

  unfoldable pub exit_status_to_reason : Option Str → RestartReason
  exit_status_to_reason none = wait_failed (str "child gone, status unknown")
  exit_status_to_reason (some s) = after_code s (strip_prefix (str "code=") s)

  unfoldable pub classify_request_error : ShimError → Option RestartReason
  classify_request_error (io error) =
      if is_gone error.kind then some RestartReason.broken_pipe else none
  classify_request_error (clangd_exited status log_path) =
      some (exit_status_to_reason (some status))
  classify_request_error _ = none

  abbrev pub record_classified : ℕ → Option RestartReason → SupervisorPolicy → SupervisorPolicy
  record_classified now none p = p
  record_classified now (some reason) p = record_exit now reason p

  unfoldable pub record_dispatch_outcome {ℓ} :
      {A : Type ℓ} → ℕ → Result A ShimError → SupervisorPolicy → SupervisorPolicy
  record_dispatch_outcome now (ok payload) p = record_spawn now p
  record_dispatch_outcome now (err e) p = record_classified now (classify_request_error e) p
