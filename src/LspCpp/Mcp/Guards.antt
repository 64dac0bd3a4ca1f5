-- ===== src/LspCpp/Mcp/Guards.antt =====
-- What stands between a call and clangd: the queue and the supervisor, and what the supervisor counts.
use mcp_tools.Prelude.{
  ◌≡◌, refl, ap, Bool, true, false, Option, none, some, Str, str, str_eq, arith,
}
use mcp_tools.Prelude.Action.{Action}
use mcp_tools.Prelude.Json.{Json, get, find_field, get_str, ◌>>=◌}
use mcp_tools.LspCpp.Error.{ShimError}
use mcp_tools.LspCpp.Backend.{LspBackend}
use mcp_tools.LspCpp.Queue.{QueueState, try_acquire}
use mcp_tools.LspCpp.Supervisor.{SupervisorPolicy, RetryDecision, proceed, wait, fail, should_retry}
use mcp_tools.LspCpp.Mcp.Reply.{error_response}
use mcp_tools.LspCpp.Mcp.Tools.{tool_of}
use mcp_tools.LspCpp.Mcp.Calls.{
  Server, Format, probe, observe, finish, dispatch, decided, admitted, release, call_tool,
  lsp_cpp_status,
}

-- Why a call is refused, by whether there is a slot and by what the supervisor says.
abbrev pub refusal : Bool → RetryDecision → Option Str
refusal false decision = some (str "queue_depth_exceeded")
refusal true proceed = none
refusal true (wait delay) = some (str "supervisor_backoff")
refusal true (fail retry_after) = some (str "supervisor_max_retries")

abbrev pub error_kind_of : Json → Option Str
error_kind_of reply =
    get (str "error") reply >>= (λ error. get (str "data") error >>= get_str (str "error_kind"))

module _ {W : Type 0} (b : LspBackend W) (format : Format) where
  IsRefused : Str → Server W → Json × Server W → Type 0
  IsRefused kind s r = (error_kind_of r.0 ≡ some kind) × (r.1.world ≡ s.world)

  decided-IsRefused :
      (id : Json) (name : Str) (args : Json) (d : RetryDecision × SupervisorPolicy) (s : Server W)
      (kind : Str)
      → refusal true d.0 ≡ some kind
      → IsRefused kind s (decided b format id name args d s)
  unfolding decided error_response get find_field str_eq IsRefused
  decided-IsRefused id name args (proceed, p) s kind e = absurd (ground arith)
  decided-IsRefused id name args (wait delay, p) s kind e = (e, refl)
  decided-IsRefused id name args (fail retry_after, p) s kind e = (e, refl)

  admitted-IsRefused :
      (id : Json) (name : Str) (args : Json) (q : QueueState × Bool) (s : Server W) (kind : Str)
      → refusal q.1 (should_retry (b.now_ns s.world) s.supervisor).0 ≡ some kind
      → IsRefused kind s (admitted b format id name args q s)
  unfolding admitted error_response get find_field str_eq IsRefused
  admitted-IsRefused id name args (queue, false) s kind e = (e, refl)
  admitted-IsRefused id name args (queue, true) s kind e =
      decided-IsRefused id name args (should_retry (b.now_ns s.world) s.supervisor)
        (record s { queue = queue }) kind e

  -- A call of a tool other than `lsp_cpp_status` that finds no slot, or that the supervisor does not let
  -- through, leaves the machine as it is: clangd is neither probed nor asked. The reply is an error of
  -- the kind that tells which of the two it was, the queue being asked first.
  pub call_tool-refused :
      (id : Json) (name : Str) (args : Json) (s : Server W) (kind : Str)
      → str_eq name lsp_cpp_status ≡ false
      → refusal (try_acquire s.queue).1 (should_retry (b.now_ns s.world) s.supervisor).0 ≡ some kind
      → (error_kind_of (call_tool b format id name args s).0 ≡ some kind)
        × ((call_tool b format id name args s).1.world ≡ s.world)
  unfolding call_tool IsRefused
  call_tool-refused id name args s kind n e =
      rw n (admitted-IsRefused id name args (try_acquire s.queue) s kind e)

  -- The server when the child has been probed, behind the supervisor's decision.
  abbrev pub probed : Server W → Server W
  probed s =
      let (queue, granted) = try_acquire s.queue in
      let (decision, p) = should_retry (b.now_ns s.world) s.supervisor in
      observe b format (probe b format (record s { queue = queue; supervisor = p }))

  decided-finish :
      (id : Json) (name : Str) (args : Json) (call : Action W ShimError Json)
      (d : RetryDecision × SupervisorPolicy) (s : Server W)
      → d.0 ≡ proceed
      → tool_of b format.secs_f64 name args ≡ some call
      → decided b format id name args d s
        ≡ finish b format id
            (call (observe b format (probe b format (record s { supervisor = d.1 }))).world)
            (observe b format (probe b format (record s { supervisor = d.1 })))
  unfolding decided dispatch
  decided-finish id name args call (proceed, p) s e t = rw t refl
  decided-finish id name args call (wait delay, p) s e t = absurd (ground arith)
  decided-finish id name args call (fail retry_after, p) s e t = absurd (ground arith)

  admitted-finish :
      (id : Json) (name : Str) (args : Json) (call : Action W ShimError Json)
      (q : QueueState × Bool) (s : Server W)
      → q.1 ≡ true
      → (should_retry (b.now_ns s.world) s.supervisor).0 ≡ proceed
      → tool_of b format.secs_f64 name args ≡ some call
      → admitted b format id name args q s
        ≡ release b format (
            finish b format id
              (call
                (observe b format (
                  probe b format (record s {
                    queue = q.0;
                    supervisor = (should_retry (b.now_ns s.world) s.supervisor).1;
                  }))).world)
              (observe b format (
                probe b format (record s {
                  queue = q.0;
                  supervisor = (should_retry (b.now_ns s.world) s.supervisor).1;
                }))))
  unfolding admitted
  admitted-finish id name args call (queue, false) s q p t = absurd (ground arith)
  admitted-finish id name args call (queue, true) s q p t = ap (release b format) (
      decided-finish id name args call (should_retry (b.now_ns s.world) s.supervisor)
        (record s { queue = queue }) p t)

  -- A call that is let through is the tool's own call, on the machine that the probe leaves.
  pub call_tool-finish :
      (id : Json) (name : Str) (args : Json) (call : Action W ShimError Json) (s : Server W)
      → str_eq name lsp_cpp_status ≡ false
      → (try_acquire s.queue).1 ≡ true
      → (should_retry (b.now_ns s.world) s.supervisor).0 ≡ proceed
      → tool_of b format.secs_f64 name args ≡ some call
      → call_tool b format id name args s
        ≡ release b format (finish b format id (call (probed s).world) (probed s))
  unfolding call_tool
  call_tool-finish id name args call s n q p t =
      rw n (admitted-finish id name args call (try_acquire s.queue) s q p t)
