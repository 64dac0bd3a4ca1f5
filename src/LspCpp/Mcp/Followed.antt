-- ===== src/LspCpp/Mcp/Followed.antt =====
-- What the server does with one message: no slot is lost, no time goes back, and the supervisor stays
-- sound.
use mcp_tools.Prelude.{
  ℕ, ◌≤◌, ◌≡◌, refl, ◌∙◌, ap, Bool, true, false, Bool-cases, Option-cases, Option, none, some, inl,
  inr, Str, str, str_eq, arith, leb,
}
use mcp_tools.Prelude.Result.{Result, ok, err, Result-cases}
use mcp_tools.Prelude.Json.{Json, get_str}
use mcp_tools.LspCpp.Error.{ShimError, IoError}
use mcp_tools.LspCpp.Backend.{LspBackend, IsMonotone}
use mcp_tools.LspCpp.Queue.{QueueState, try_acquire, drop_slot}
use mcp_tools.LspCpp.Supervisor.{
  SupervisorPolicy, RestartReason, RetryDecision, proceed, wait, fail, should_retry, decide,
}
use mcp_tools.LspCpp.Supervisor.Settled.{
  IsSettled, later-IsSettled, spawned-IsSettled, exited-IsSettled, asked-IsSettled,
  probed-IsSettled,
}
use mcp_tools.LspCpp.Mcp.Reply.{initialize, initialized, tools_list, tools_call, shutdown}
use mcp_tools.LspCpp.Mcp.Tools.{tool_of}
use mcp_tools.LspCpp.Mcp.Outcome.{record_classified, record_dispatch_outcome}
use mcp_tools.LspCpp.Mcp.Calls.{
  Server, Format, probe, observe, finish, dispatch, decided, admitted, call_tool, named_call,
  handle_tools_call, lsp_cpp_status,
}
use mcp_tools.LspCpp.Mcp.Serve.{
  handle_message, handle_parsed, handle_request, with_method, handle_method, shut_down,
}
use mcp_tools.LspCpp.Mcp.Forward.{tool_of-IsForward}

-- What the queue answered, and the queue before.
IsGrant : QueueState × Bool → QueueState → Type 0
IsGrant (queue, true) before = drop_slot queue ≡ before
IsGrant (queue, false) before = queue ≡ before

try_acquire-IsGrant : (queue : QueueState) → IsGrant (try_acquire queue) queue
unfolding IsGrant try_acquire drop_slot
try_acquire-IsGrant queue = elim (Bool-cases (leb queue.capacity queue.in_flight)) [
  | inl full ↦ rw full refl
  | inr room ↦ rw room (ap (λ n. record queue { in_flight = n }) (omega arith))
]

module _ {W : Type 0} (b : LspBackend W) (format : Format) where
  -- A server that came of another: the slots are as they were, no time went back, and the supervisor is
  -- sound at the new time.
  unfoldable pub IsFollowed : Server W → Server W → Type 0
  IsFollowed s t =
      (t.queue ≡ s.queue)
      × (b.now_ns s.world ≤ b.now_ns t.world)
      × IsSettled (b.now_ns t.world) t.supervisor

  module _ (m : IsMonotone b) where
    probe-IsFollowed :
        (s : Server W)
        → IsSettled (b.now_ns s.world) s.supervisor
        → IsFollowed s (probe b format s).1
    unfolding IsFollowed
    probe-IsFollowed s settled = (
      refl,
      m.is_alive s.world,
      probed-IsSettled _ _ s.supervisor
          (later-IsSettled _ _ s.supervisor (m.is_alive s.world) settled),
    )

    observe-IsFollowed :
        (alive : Result Bool IoError) (s : Server W)
        → IsSettled (b.now_ns s.world) s.supervisor
        → IsFollowed s (observe b format (alive, s))
    unfolding IsFollowed observe
    observe-IsFollowed (ok true) s settled = (refl, omega arith, settled)
    observe-IsFollowed (ok false) s settled = (
      refl,
      omega arith,
      exited-IsSettled (b.now_ns s.world) _ _ s.supervisor (omega arith) settled,
    )
    observe-IsFollowed (err e) s settled = (refl, omega arith, settled)

    classified-IsSettled :
        (now : ℕ) (reason : Option RestartReason) (p : SupervisorPolicy)
        → IsSettled now p
        → IsSettled now (record_classified format.debug now reason p)
    classified-IsSettled now none p settled = settled
    classified-IsSettled now (some reason) p settled =
        exited-IsSettled now now reason p (omega arith) settled

    outcome-IsSettled :
        (now : ℕ) (result : Result Json ShimError) (p : SupervisorPolicy)
        → IsSettled now p
        → IsSettled now (record_dispatch_outcome format.debug now result p)
    unfolding record_dispatch_outcome
    outcome-IsSettled now (ok payload) p settled = spawned-IsSettled now now p (omega arith) settled
    outcome-IsSettled now (err e) p settled = classified-IsSettled now _ p settled

    dispatch-IsFollowed :
        (id : Json) (name : Str) (args : Json) (s : Server W)
        → IsSettled (b.now_ns s.world) s.supervisor
        → IsFollowed s (dispatch b format id name (tool_of b format.secs_f64 name args) s).1
    unfolding IsFollowed dispatch finish
    dispatch-IsFollowed id name args s settled =
        elim (Option-cases (tool_of b format.secs_f64 name args)) [
          | inl e ↦ rw e (refl, omega arith, settled)
          | inr (call, e) ↦ rw e (
              let forward = tool_of-IsForward b m format.secs_f64 args name call e s.world in
              (
                refl,
                forward,
                outcome-IsSettled _ _ s.supervisor
                    (later-IsSettled _ _ s.supervisor forward settled),
              ))
        ]

    decided-IsFollowed :
        (id : Json) (name : Str) (args : Json) (d : RetryDecision × SupervisorPolicy) (s : Server W)
        → IsSettled (b.now_ns s.world) d.1
        → IsFollowed s (decided b format id name args d s).1
    unfolding IsFollowed decided
    decided-IsFollowed id name args (wait delay, p) s settled = (refl, omega arith, settled)
    decided-IsFollowed id name args (fail retry_after, p) s settled = (refl, omega arith, settled)
    decided-IsFollowed id name args (proceed, p) s settled =
        let asked : Server W = record s { supervisor = p } in
        let seen = probe b format asked in
        let p₁ = probe-IsFollowed asked settled in
        let p₂ = observe-IsFollowed seen.0 seen.1 p₁.2 in
        let p₃ = dispatch-IsFollowed id name args (observe b format seen) p₂.2 in
        (p₃.0 ∙ (p₂.0 ∙ p₁.0), omega (arith, p₁.1, p₂.1, p₃.1), p₃.2)

    admitted-IsFollowed :
        (id : Json) (name : Str) (args : Json) (q : QueueState × Bool) (s : Server W)
        → IsGrant q s.queue
        → IsSettled (b.now_ns s.world) s.supervisor
        → IsFollowed s (admitted b format id name args q s).1
    unfolding IsFollowed admitted should_retry IsGrant
    admitted-IsFollowed id name args (queue, false) s g settled = (g, omega arith, settled)
    admitted-IsFollowed id name args (queue, true) s g settled =
        let asked =
          asked-IsSettled (b.now_ns s.world) s.supervisor.state s.supervisor refl settled in
        let p =
          decided-IsFollowed id name args
            (decide s.supervisor.state (b.now_ns s.world) s.supervisor) (record s { queue = queue })
            asked in
        (ap drop_slot p.0 ∙ g, p.1, p.2)

    call_tool-IsFollowed :
        (id : Json) (name : Str) (args : Json) (s : Server W)
        → IsSettled (b.now_ns s.world) s.supervisor
        → IsFollowed s (call_tool b format id name args s).1
    unfolding call_tool
    call_tool-IsFollowed id name args s settled = elim (Bool-cases (str_eq name lsp_cpp_status)) [
      | inl e ↦ rw e (probe-IsFollowed s settled)
      | inr e ↦ rw e (
          admitted-IsFollowed id name args (try_acquire s.queue) s (try_acquire-IsGrant s.queue)
            settled)
    ]

    named_call-IsFollowed :
        (id params : Json) (name : Option Str) (s : Server W)
        → IsSettled (b.now_ns s.world) s.supervisor
        → IsFollowed s (named_call b format id params name s).1
    unfolding named_call IsFollowed
    named_call-IsFollowed id params none s settled = (refl, omega arith, settled)
    named_call-IsFollowed id params (some name) s settled = call_tool-IsFollowed id name _ s settled

    method-IsFollowed :
        (id : Json) (is_notification : Bool) (params : Json) (method : Option Str) (s : Server W)
        → IsSettled (b.now_ns s.world) s.supervisor
        → IsFollowed s (with_method b format id is_notification params method s).1
    unfolding IsFollowed with_method handle_method handle_tools_call shut_down
    method-IsFollowed id is_notification params none s settled = (refl, omega arith, settled)
    method-IsFollowed id is_notification params (some method) s settled =
        let same : IsFollowed s s = (refl, omega arith, settled) in
        let closed = later-IsSettled _ _ s.supervisor (m.shutdown s.world) settled in
        elim (Bool-cases (str_eq method initialize)) [
          | inl e ↦ rw e same
          | inr e₁ ↦ rw e₁ (elim (Bool-cases (str_eq method initialized)) [
            | inl e ↦ rw e same
            | inr e₂ ↦ rw e₂ (elim (Bool-cases (str_eq method tools_list)) [
              | inl e ↦ rw e same
              | inr e₃ ↦ rw e₃ (elim (Bool-cases (str_eq method tools_call)) [
                | inl e ↦
                    rw e (named_call-IsFollowed id params (get_str (str "name") params) s settled)
                | inr e₄ ↦ rw e₄ (elim (Bool-cases (str_eq method shutdown)) [
                  | inl e ↦ rw e (refl, m.shutdown s.world, closed)
                  | inr e₅ ↦ rw e₅ same
                ])
              ])
            ])
          ])
        ]

    pub message-IsFollowed :
        (line : Str) (s : Server W)
        → IsSettled (b.now_ns s.world) s.supervisor
        → IsFollowed s (handle_message b format line s).1
    unfolding IsFollowed handle_message handle_parsed handle_request
    message-IsFollowed line s settled = elim (Result-cases (format.from_str line)) [
      | inl (request, e) ↦ rw e (method-IsFollowed _ _ _ _ s settled)
      | inr (failure, e) ↦ rw e (refl, omega arith, settled)
    ]
