-- ===== src/LspRust/Requests.antt =====
-- lsp-rust/src/lsp.rs: requests with retries, the wait for the index, and the end of the child.
use mcp_tools.Prelude.{
  ℕ, zero, suc, ◌+◌, ◌-◌, ◌*◌, Bool, true, false, ◌||◌, Option, none, some, [], ◌∷◌, ◌++◌, leb, ltb,
  Str, str, str_eq, if◌then◌else◌,
}
use mcp_tools.Prelude.Int.{ℤ}
use mcp_tools.Prelude.Json.{Json, null, boolean, text, nat}
use mcp_tools.Prelude.Result.{Result, ok, err}
use mcp_tools.Prelude.Action.{Action, ◌>>◌}
use mcp_tools.LspCpp.Supervisor.{from_secs}
use mcp_tools.LspCpp.Mcp.Reply.{json_object}
use mcp_tools.LspCpp.Clangd.Request.{same_id}
use mcp_tools.LspShimCore.Framing.{lsp_error_content_modified, lsp_error_server_cancelled}
use mcp_tools.LspRust.Error.{LspShimError, lsp, timeout, internal}
use mcp_tools.LspRust.Client.{Os, Machine}
use mcp_tools.LspRust.Answers.{Serde}
use mcp_tools.LspRust.Session.{request_once, spawn}

abbrev pub retry_budget : ℕ
retry_budget = 3

abbrev pub retry_backoff_ms : ℕ
retry_backoff_ms = 500

abbrev pub from_millis : ℕ → ℕ
from_millis ms = ms * 1_000_000

abbrev pub is_transient_code : ℤ → Bool
is_transient_code code =
    same_id code (some lsp_error_content_modified) || same_id code (some lsp_error_server_cancelled)

abbrev pub transient_error : Str → LspShimError
transient_error message = lsp lsp_error_content_modified message (some retry_backoff_ms)

abbrev exhausted : Option LspShimError → LspShimError
exhausted none = internal (str "retry loop exhausted with no error captured")
exhausted (some e) = e

abbrev document : Str → Json
document file = json_object ((str "uri", text (str "file://" ++ file)) ∷ [])

abbrev place : ℕ → ℕ → Json
place line column =
    json_object ((str "line", nat (line - 1)) ∷ (str "character", nat (column - 1)) ∷ [])

abbrev query_params : Str → Json
query_params query = json_object ((str "query", text query) ∷ [])

abbrev pub is_last : Option Str → Str → Bool
is_last none digest = false
is_last (some other) digest = str_eq digest other

abbrev pub settled_after : ℕ → Json
settled_after samples =
    json_object ((str "status", text (str "indexing_settled")) ∷ (str "samples", nat samples) ∷ [])

module _ {W : Type 0} (os : Os W) (serde : Serde) where
  abbrev pub pause : ℕ → Machine W → Machine W
  pause ms m = record m { world = os.sleep (from_millis ms) m.world }

  abbrev pub pause_unless_last : ℕ → Machine W → Machine W
  pause_unless_last zero m = m
  pause_unless_last (suc left) m = pause retry_backoff_ms m

  -- What follows an attempt, with `left` more of them and `retry` for the next one.
  abbrev pub after_attempt :
      ℕ
      → (Option LspShimError → Machine W → Result Json LspShimError × Machine W)
      → Result Json LspShimError × Machine W
      → Result Json LspShimError × Machine W
  after_attempt left retry (err (lsp code message retry_after_ms), m) =
      if is_transient_code code
      then retry (some (transient_error message)) (pause_unless_last left m)
      else (err (lsp code message retry_after_ms), m)
  after_attempt left retry settled = settled

  unfoldable pub attempts :
      ℕ → Str → Json → Option LspShimError → Machine W → Result Json LspShimError × Machine W
  attempts zero method params last_err m = (err (exhausted last_err), m)
  attempts (suc left) method params last_err m =
      after_attempt left (attempts left method params) (request_once os serde method params m)

  -- The samples of the index that the wait compares; an error of the server is the sample `null`.
  abbrev sample_of : Result Json LspShimError → Result Json LspShimError
  sample_of (err (lsp code message retry_after_ms)) = ok null
  sample_of answer = answer

  unfoldable pub sample : Action (Machine W) LspShimError Json
  sample m =
      let (answer, m₁) = request_once os serde (str "workspace/symbol") (query_params (str "")) m in
      (sample_of answer, m₁)

  -- A sample is compared with the last one; `continue` is the next round.
  abbrev pub on_sample :
      (Option Str → ℕ → Machine W → Result Json LspShimError × Machine W)
      → Option Str
      → ℕ
      → Result Json LspShimError × Machine W
      → Result Json LspShimError × Machine W
  on_sample continue last_digest stable (err e, m) = (err e, m)
  on_sample continue last_digest stable (ok value, m) =
      let digest = serde.show value in
      if is_last last_digest digest
      then (if leb 2 (stable + 1)
          then (ok (settled_after (stable + 1)), m)
          else continue last_digest (stable + 1) (pause 500 m))
      else continue (some digest) 0 (pause 500 m)

  abbrev not_settled : Machine W → Result Json LspShimError × Machine W
  not_settled m = (err (timeout (str "wait_for_indexing") m.client.timeout_s m.client.log_path), m)

  unfoldable pub poll_within :
      ℕ → ℕ → Option Str → ℕ → Machine W → Result Json LspShimError × Machine W
  unfolding sample
  poll_within zero deadline last_digest stable m = not_settled m
  poll_within (suc rounds) deadline last_digest stable m =
      if ltb (os.now_ns m.world) deadline
      then on_sample (poll_within rounds deadline) last_digest stable (sample m)
      else not_settled m

  -- Half a second passes in each round at least.
  abbrev pub poll : Machine W → Result Json LspShimError × Machine W
  poll m =
      poll_within (m.client.timeout_s * 2 + 1) (os.now_ns m.world + from_secs m.client.timeout_s)
        none 0 m

  module _ (process_id : ℕ) (version : Str) where
    unfoldable pub request_with_retry : Str → Json → Action (Machine W) LspShimError Json
    unfolding spawn attempts
    request_with_retry method params =
        spawn os serde process_id version >> attempts retry_budget method params none

    unfoldable pub wait_for_indexing : Action (Machine W) LspShimError Json
    unfolding spawn poll_within
    wait_for_indexing = spawn os serde process_id version >> poll

    unfoldable pub definition : Str → ℕ → ℕ → Action (Machine W) LspShimError Json
    unfolding request_with_retry
    definition file line column = request_with_retry (str "textDocument/definition") (
        json_object
          ((str "textDocument", document file) ∷ (str "position", place line column) ∷ []))

    unfoldable pub references : Str → ℕ → ℕ → Action (Machine W) LspShimError Json
    unfolding request_with_retry
    references file line column = request_with_retry (str "textDocument/references") (
        json_object (
          (str "textDocument", document file)
          ∷ (str "position", place line column)
          ∷ (str "context", json_object ((str "includeDeclaration", boolean true) ∷ []))
          ∷ []))

    unfoldable pub hover : Str → ℕ → ℕ → Action (Machine W) LspShimError Json
    unfolding request_with_retry
    hover file line column = request_with_retry (str "textDocument/hover") (
        json_object
          ((str "textDocument", document file) ∷ (str "position", place line column) ∷ []))

    unfoldable pub workspace_symbols : Str → Action (Machine W) LspShimError Json
    unfolding request_with_retry
    workspace_symbols query = request_with_retry (str "workspace/symbol") (query_params query)

    unfoldable pub diagnostics : Str → Action (Machine W) LspShimError Json
    unfolding request_with_retry
    diagnostics file =
        request_with_retry (str "textDocument/diagnostic")
          (json_object ((str "textDocument", document file) ∷ []))
