-- ===== src/LspCpp/Mcp/Status.antt =====
-- lsp-cpp/src/mcp.rs: the payload of the status tool.
use mcp_tools.Prelude.{ℕ, ◌/◌, Bool, false, Option, none, some, List, [], ◌∷◌, ◌++◌, Str, str}
use mcp_tools.Prelude.Result.{Result, ok, err}
use mcp_tools.Prelude.Json.{Json, null, boolean, text, text_or_null, nat}
use mcp_tools.LspCpp.Error.{IoError}
use mcp_tools.LspCpp.Backend.{LspBackend}
use mcp_tools.LspCpp.Queue.{QueueState}
use mcp_tools.LspCpp.Supervisor.{
  SupervisorPolicy, SupervisorState, stopped, running, backoff, failed, RestartReason, as_tag,
  current_uptime,
}
use mcp_tools.LspCpp.Mcp.Reply.{json_object}

-- `Duration::as_secs`
abbrev pub as_secs : ℕ → ℕ
as_secs ns = ns / 1_000_000_000

unfoldable pub supervisor_state_tag : SupervisorState → Str
supervisor_state_tag stopped = str "stopped"
supervisor_state_tag running = str "running"
supervisor_state_tag (backoff duration) = str "backoff"
supervisor_state_tag failed = str "failed"

abbrev pub reason_tag : Option RestartReason → Str
reason_tag none = str "none"
reason_tag (some reason) = as_tag reason

abbrev nat_or_null : Option ℕ → Json
nat_or_null none = null
nat_or_null (some n) = nat n

abbrev alive_of : Result Bool IoError → Bool
alive_of (ok alive) = alive
alive_of (err e) = false

abbrev probe_error : Result Bool IoError → List (Str × Json)
probe_error (ok alive) = []
probe_error (err e) = (str "alive_probe_error", text (str "io error: " ++ e.message)) ∷ []

unfoldable pub build_status_payload :
    {W : Type 0} → LspBackend W → W → QueueState → SupervisorPolicy → Result Bool IoError → Json
build_status_payload b w queue supervisor alive_result = json_object (
    (str "clangd_pid", nat_or_null (b.clangd_pid w))
    ∷ (str "alive", boolean (alive_of alive_result))
    ∷ (str "uptime_s", nat (as_secs (current_uptime (b.now_ns w) supervisor)))
    ∷ (str "restart_count", nat supervisor.total_restarts)
    ∷ (str "last_restart_reason", text (reason_tag supervisor.last_reason))
    ∷ (str "last_exit_status", text_or_null (b.last_exit_status w))
    ∷ (str "supervisor_state", text (supervisor_state_tag supervisor.state))
    ∷ (str "queue_in_flight", nat queue.in_flight)
    ∷ (str "queue_capacity", nat queue.capacity)
    ∷ (str "try_wait_total_ns", nat supervisor.try_wait_total_ns)
    ∷ probe_error alive_result)
