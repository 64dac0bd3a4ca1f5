-- ===== src/LspCpp/Mcp/Calls.antt =====
-- lsp-cpp/src/mcp.rs: `tools/call`, layer by layer: the status tool, the queue, the supervisor, the
-- probe of the child, and the call itself.
use mcp_tools.Prelude.{
  ℕ, ◌-◌, ◌%◌, ◌^◌, Bool, true, false, Option, none, some, List, [], ◌∷◌, ◌++◌, Str, str, str_eq,
  if◌then◌else◌,
}
use mcp_tools.Prelude.Result.{Result, ok, err}
use mcp_tools.Prelude.Action.{Action}
use mcp_tools.Prelude.Decimal.{decimal}
use mcp_tools.Prelude.Json.{Json, text, object, end_fields, get, get_str, nat, unwrap_or}
use mcp_tools.LspCpp.Error.{ShimError, IoError, display}
use mcp_tools.LspCpp.Backend.{LspBackend}
use mcp_tools.LspCpp.Queue.{QueueState, try_acquire, drop_slot}
use mcp_tools.LspCpp.Supervisor.{
  SupervisorPolicy, record_try_wait_ns, record_exit, should_retry, RetryDecision, proceed, wait,
  fail, restart_window,
}
use mcp_tools.LspCpp.Mcp.Reply.{
  success_response, error_response, tool_result, json_object, invalid_params, internal_error,
  method_not_found, supervisor_max_retries_code, queue_retry_after_s,
}
use mcp_tools.LspCpp.Mcp.Outcome.{exit_status_to_reason, record_dispatch_outcome, error_kind}
use mcp_tools.LspCpp.Mcp.Tools.{tool_of}
use mcp_tools.LspCpp.Mcp.Status.{build_status_payload, supervisor_state_tag, reason_tag, as_secs}

-- What the server holds, with the state of the machine.
pub record Server (W : Type 0) : Type 0 where
  pub world : W
  pub queue : QueueState
  pub supervisor : SupervisorPolicy

-- How values are read and written: JSON, a time in seconds, the `Debug` form of a text; and the
-- version of the crate.
pub record Format : Type 0 where
  pub from_str : Str → Result Json Str
  pub to_string : Json → Result Str Str
  pub to_string_pretty : Json → Str
  pub secs_f64 : ℕ → Json
  pub debug : Str → Str
  pub version : Str

abbrev pub lsp_cpp_status : Str
lsp_cpp_status = str "lsp_cpp_status"

-- A refusal, with the word that tells its kind.
abbrev kind_data : Str → List (Str × Json) → Option Json
kind_data kind rest = some (json_object ((str "error_kind", text kind) ∷ rest))

abbrev queue_full : Json → QueueState → Json
queue_full id queue =
    error_response id internal_error
      (str "wrapper queue full ("
        ++ decimal queue.in_flight
        ++ str "/"
        ++ decimal queue.capacity
        ++ str "); retry after "
        ++ decimal queue_retry_after_s
        ++ str "s")
      (kind_data (str "queue_depth_exceeded") (
        (str "in_flight", nat queue.in_flight)
        ∷ (str "capacity", nat queue.capacity)
        ∷ (str "retry_after_s", nat queue_retry_after_s)
        ∷ []))

abbrev in_backoff : Json → ℕ → SupervisorPolicy → Json
in_backoff id delay p =
    error_response id internal_error
      (str "clangd is restarting (backoff "
        ++ decimal (as_secs delay)
        ++ str " s); retry after the supervisor finishes its respawn cycle")
      (kind_data (str "supervisor_backoff") (
        (str "retry_after_s", nat (as_secs delay))
        ∷ (str "supervisor_state", text (supervisor_state_tag p.state))
        ∷ []))

abbrev given_up : Json → ℕ → SupervisorPolicy → Json
given_up id retry_after p =
    error_response id supervisor_max_retries_code
      (str "clangd has crashed "
        ++ decimal p.total_restarts
        ++ str " times in the last "
        ++ decimal (as_secs restart_window)
        ++ str "s — supervisor giving up; window expires in "
        ++ decimal (as_secs retry_after)
        ++ str "s")
      (kind_data (str "supervisor_max_retries") (
        (str "retry_after_s", nat (as_secs retry_after))
        ∷ (str "total_restarts", nat p.total_restarts)
        ∷ (str "last_restart_reason", text (reason_tag p.last_reason))
        ∷ []))

module _ {W : Type 0} (b : LspBackend W) (format : Format) where
  -- The probe of the child, with its cost added to the supervisor's count.
  abbrev pub probe : Server W → Result Bool IoError × Server W
  probe s =
      let (alive, w) = b.is_alive s.world in
      let cost = (b.now_ns w - b.now_ns s.world) % 2 ^ 64 in
      (alive, record s { world = w; supervisor = record_try_wait_ns cost s.supervisor })

  abbrev status_reply : Json → Result Bool IoError × Server W → Json × Server W
  status_reply id (alive, s) = (
    success_response id (
        tool_result
          (format.to_string_pretty (build_status_payload b s.world s.queue s.supervisor alive))),
    s,
  )

  -- A child that is gone is told to the supervisor.
  unfoldable pub observe : Result Bool IoError × Server W → Server W
  observe (ok false, s) =
      let reason = exit_status_to_reason format.debug (b.last_exit_status s.world) in
      record s { supervisor = record_exit (b.now_ns s.world) reason s.supervisor }
  observe (_, s) = s

  unfoldable pub reply_of : Json → Result Json ShimError → Json
  reply_of id (ok payload) = success_response id (tool_result (format.to_string_pretty payload))
  reply_of id (err e) = error_response id internal_error (display e) (kind_data (error_kind e) [])

  -- The call itself, and what the supervisor makes of it.
  unfoldable pub finish : Json → Result Json ShimError × W → Server W → Json × Server W
  finish id (result, w) s = (
    reply_of id result,
    record s {
      world = w;
      supervisor = record_dispatch_outcome format.debug (b.now_ns w) result s.supervisor;
    },
  )

  unfoldable pub dispatch :
      Json → Str → Option (Action W ShimError Json) → Server W → Json × Server W
  unfolding finish
  dispatch id name none s = (
    error_response id method_not_found (str "unknown tool: " ++ name)
        (kind_data (str "unknown_tool") []),
    s,
  )
  dispatch id name (some call) s = finish id (call s.world) s

  -- Behind the supervisor's decision.
  unfoldable pub decided :
      Json → Str → Json → RetryDecision × SupervisorPolicy → Server W → Json × Server W
  unfolding observe dispatch tool_of
  decided id name args (proceed, p) s =
      dispatch id name (tool_of b format.secs_f64 name args)
        (observe (probe (record s { supervisor = p })))
  decided id name args (wait delay, p) s = (in_backoff id delay p, record s { supervisor = p })
  decided id name args (fail retry_after, p) s =
      (given_up id retry_after p, record s { supervisor = p })

  -- The slot is dropped when the reply is built.
  abbrev pub release : Json × Server W → Json × Server W
  release (reply, s) = (reply, record s { queue = drop_slot s.queue })

  unfoldable pub admitted : Json → Str → Json → QueueState × Bool → Server W → Json × Server W
  unfolding decided should_retry
  admitted id name args (queue, false) s = (queue_full id queue, record s { queue = queue })
  admitted id name args (queue, true) s = release (
      decided id name args (should_retry (b.now_ns s.world) s.supervisor)
        (record s { queue = queue }))

  unfoldable pub call_tool : Json → Str → Json → Server W → Json × Server W
  unfolding admitted try_acquire
  call_tool id name args s =
      if str_eq name lsp_cpp_status
      then status_reply id (probe s)
      else admitted id name args (try_acquire s.queue) s

  unfoldable pub named_call : Json → Json → Option Str → Server W → Json × Server W
  unfolding call_tool
  named_call id params none s =
      (error_response id invalid_params (str "tools/call missing `name`") none, s)
  named_call id params (some name) s =
      call_tool id name (unwrap_or (get (str "arguments") params) (object end_fields)) s

  unfoldable pub handle_tools_call : Json → Json → Server W → Json × Server W
  unfolding named_call
  handle_tools_call id params s = named_call id params (get_str (str "name") params) s
