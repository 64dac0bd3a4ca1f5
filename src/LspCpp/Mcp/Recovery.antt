-- ===== src/LspCpp/Mcp/Recovery.antt =====
-- The server's own life: whatever messages come, the supervisor's laws hold of it, every slot is back
-- when the reply is written, and clangd is asked again once the supervisor's window has passed.
use mcp_tools.Prelude.{ℕ, ◌+◌, ◌^◌, ◌≤◌, ◌<◌, ◌≡◌, ◌∙◌, ap, true, false, some, Str, str_eq, arith}
use mcp_tools.Prelude.Action.{Action}
use mcp_tools.Prelude.Json.{Json}
use mcp_tools.LspCpp.Error.{ShimError}
use mcp_tools.LspCpp.Backend.{LspBackend, IsMonotone}
use mcp_tools.LspCpp.Queue.{QueueState, new, try_acquire}
use mcp_tools.LspCpp.Supervisor.{with_clock, restart_window}
use mcp_tools.LspCpp.Supervisor.Settled.{IsSettled, later-IsSettled, new-IsSettled}
use mcp_tools.LspCpp.Supervisor.Recovery.{settled-proceeds}
use mcp_tools.LspCpp.Mcp.Tools.{tool_of}
use mcp_tools.LspCpp.Mcp.Calls.{
  Server, Format, observe, reply_of, finish, call_tool, lsp_cpp_status,
}
use mcp_tools.LspCpp.Mcp.Serve.{handle_message}
use mcp_tools.LspCpp.Mcp.Followed.{IsFollowed, message-IsFollowed}
use mcp_tools.LspCpp.Mcp.Guards.{call_tool-finish}
use mcp_tools.LspCpp.Mcp.Restarts.{probed-world}

module _ {W : Type 0} (b : LspBackend W) (format : Format) where
  -- The servers that come of a new one: it handles a message, or time passes on the machine.
  pub data IsServed (depth : ℕ) : Server W → Type 0 where
    started :
        (w : W) (queue : QueueState)
        → new depth ≡ some queue
        → IsServed depth (record { world = w; queue = queue; supervisor = with_clock })
    handled :
        {s : Server W} (line : Str)
        → IsServed depth s
        → IsServed depth (handle_message b format line s).1
    waited :
        {s : Server W} (w : W)
        → b.now_ns s.world ≤ b.now_ns w
        → IsServed depth s
        → IsServed depth (record s { world = w })

  -- No slot is taken, and the supervisor keeps nothing that lies in the future.
  pub record IsIdle (depth : ℕ) (s : Server W) : Type 0 where
    pub free_slots : s.queue.in_flight ≡ 0
    pub capacity : s.queue.capacity ≡ depth
    pub room : 0 < depth
    pub settled : IsSettled (b.now_ns s.world) s.supervisor

  module _ (m : IsMonotone b) where
    served-IsIdle : {depth : ℕ} {s : Server W} → IsServed depth s → IsIdle depth s
    unfolding new IsFollowed
    served-IsIdle (started w queue e) = record {
      free_slots = ground arith;
      capacity = ground arith;
      room = ground arith;
      settled = later-IsSettled 0 (b.now_ns w) with_clock (omega arith) new-IsSettled;
    }
    served-IsIdle (handled {s = s} line served) =
        let idle = served-IsIdle served in
        let p = message-IsFollowed b format m line s idle.settled in
        record {
          free_slots = ap (λ q. q.in_flight) p.0 ∙ idle.free_slots;
          capacity = ap (λ q. q.capacity) p.0 ∙ idle.capacity;
          room = idle.room;
          settled = p.2;
        }
    served-IsIdle (waited {s = s} w later served) =
        let idle = served-IsIdle served in
        record {
          free_slots = idle.free_slots;
          capacity = idle.capacity;
          room = idle.room;
          settled = later-IsSettled _ _ s.supervisor later idle.settled;
        }

    granted :
        (queue : QueueState) (depth : ℕ)
        → queue.in_flight ≡ 0
        → queue.capacity ≡ depth
        → 0 < depth
        → (try_acquire queue).1 ≡ true
    unfolding try_acquire
    granted queue depth e c h = ground arith

    -- Whatever messages a server of any queue depth has handled, whatever clangd did, and whatever the
    -- supervisor decided: on a clock that does not go back, a call of a tool that comes more than 300 s
    -- after the server was last in its state reaches clangd, and its reply is made of what clangd
    -- answers. So neither a lost slot nor a run of crashes makes clangd unreachable for good.
    pub call_tool-recovers :
        (depth : ℕ) (s : Server W) (w : W) (id : Json) (name : Str) (args : Json)
        (call : Action W ShimError Json)
        → IsServed depth s
        → b.now_ns s.world + restart_window < b.now_ns w
        → b.now_ns w < 2 ^ 64
        → str_eq name lsp_cpp_status ≡ false
        → tool_of b format.secs_f64 name args ≡ some call
        → (call_tool b format id name args (record s { world = w })).0
          ≡ reply_of b format id (call (b.is_alive w).1).0
    unfolding finish observe
    call_tool-recovers depth s w id name args call served late fits n t =
        let idle = served-IsIdle served in
        let free = granted s.queue depth idle.free_slots idle.capacity idle.room in
        let goes =
          settled-proceeds (b.now_ns s.world) (b.now_ns w) s.supervisor idle.settled late fits in
        rw (call_tool-finish b format id name args call (record s { world = w }) n free goes t) (
          ap (λ v. reply_of b format id (call v).0)
            (probed-world b format (record s { world = w })))

    -- Whatever messages a server has handled, all its slots are free when it waits for the next one.
    pub served-idle :
        (depth : ℕ) (s : Server W)
        → IsServed depth s
        → s.queue ≡ record { capacity = depth; in_flight = 0 }
    served-idle depth s served = let idle = served-IsIdle served in ground arith
