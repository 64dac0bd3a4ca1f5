-- ===== src/CodexStdio/Health.antt =====
-- codex-stdio/src/health.rs: the tool that tells whether a task could be run. The time that the probe
-- takes is an argument.
pub mod Agreement
use mcp_tools.Prelude.{
  ℕ, Bool, true, false, not, Option, none, some, [], ◌∷◌, if◌then◌else◌, is_empty, Str, str,
}
use mcp_tools.Prelude.Json.{Json, boolean, text, nat}
use mcp_tools.Prelude.Result.{Result, ok, err}
use mcp_tools.LspCpp.Mcp.Reply.{json_object}
use mcp_tools.CodexStdio.Worktree.{or_text}
use mcp_tools.CodexStdio.RunTask.{default_model}
use mcp_tools.CodexStdio.Codex.{Shell, locate_codex_binary}

-- `.map(|v| !v.is_empty()).unwrap_or(false)`
abbrev is_given : Option Str → Bool
is_given none = false
is_given (some v) = not (is_empty v)

abbrev pub fixture_variable : Str
fixture_variable = str "CODEX_STDIO_REPLAY_FIXTURE"

module _ {W : Type 0} (shell : Shell W) where
  abbrev pub probed : W → Option Str → Result Str Str
  probed w fixture =
      if is_given fixture then ok (str "(replay fixture)") else locate_codex_binary shell w

  unfoldable pub probe_transport : W → Result Str Str
  probe_transport w = probed w (shell.env fixture_variable)

  unfoldable pub transport_kind : Str
  transport_kind = if is_given (shell.env fixture_variable) then str "replay" else str "http"

  abbrev model : Str
  model = or_text (shell.env (str "CODEX_STDIO_MODEL")) default_model

  abbrev pub payload_of : ℕ → Result Str Str → Json
  payload_of latency_ms (ok binary_path) = json_object (
      (str "available", boolean true)
      ∷ (str "model", text model)
      ∷ (str "latency_ms", nat latency_ms)
      ∷ (str "transport", text transport_kind)
      ∷ (str "binary_path", text binary_path)
      ∷ [])
  payload_of latency_ms (err reason) = json_object (
      (str "available", boolean false)
      ∷ (str "model", text model)
      ∷ (str "latency_ms", nat latency_ms)
      ∷ (str "reason", text reason)
      ∷ (str "transport", text transport_kind)
      ∷ [])

  unfoldable pub run : ℕ → W → Json
  unfolding probe_transport transport_kind
  run latency_ms w = payload_of latency_ms (probe_transport w)
