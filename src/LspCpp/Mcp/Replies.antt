-- ===== src/LspCpp/Mcp/Replies.antt =====
-- Every message that needs a reply gets one, with its own id, and every slot is given back.
use mcp_tools.Prelude.{
  ◌≡◌, refl, Bool, true, false, Bool-cases, Option, none, some, ◌⊎◌, inl, inr, Str, str, str_eq,
  if◌then◌else◌,
}
use mcp_tools.Prelude.Result.{Result, ok, err}
use mcp_tools.Prelude.Action.{Action}
use mcp_tools.Prelude.Int.{ℤ}
use mcp_tools.Prelude.Json.{Json, null, text, get, find_field, get_str, unwrap_or}
use mcp_tools.LspCpp.Error.{ShimError}
use mcp_tools.LspCpp.Backend.{LspBackend}
use mcp_tools.LspCpp.Queue.{QueueState, try_acquire}
use mcp_tools.LspCpp.Supervisor.{SupervisorPolicy, RetryDecision, proceed, wait, fail}
use mcp_tools.LspCpp.Mcp.Reply.{
  success_response, error_response, initialize, initialized, tools_list, tools_call, shutdown,
}
use mcp_tools.LspCpp.Mcp.Calls.{
  Server, Format, reply_of, finish, dispatch, decided, admitted, call_tool, named_call,
  handle_tools_call, lsp_cpp_status,
}
use mcp_tools.LspCpp.Mcp.Serve.{
  is_none, unless_notification, handle_method, with_method, handle_request, handle_parsed,
  handle_message, shut_down,
}

-- A response to the request with this id: it has a result or an error.
abbrev pub IsReply : Json → Json → Type 0
IsReply id reply =
    (get (str "jsonrpc") reply ≡ some (text (str "2.0")))
    × (get (str "id") reply ≡ some id)
    × (((result : Json) × (get (str "result") reply ≡ some result)
          × (get (str "error") reply ≡ none))
        ⊎ ((error : Json) × (get (str "error") reply ≡ some error)
            × (get (str "result") reply ≡ none)))

pub success-IsReply : (id result : Json) → IsReply id (success_response id result)
unfolding success_response get find_field str_eq
success-IsReply id result = (refl, refl, inl (result, refl, refl))

pub error-IsReply :
    (id : Json) (code : ℤ) (message : Str) (value : Option Json)
    → IsReply id (error_response id code message value)
unfolding error_response get find_field str_eq
error-IsReply id code message value = (refl, refl, inr (_, refl, refl))

module _ {W : Type 0} (b : LspBackend W) (format : Format) where
  reply_of-IsReply : (id : Json) (r : Result Json ShimError) → IsReply id (reply_of b format id r)
  unfolding reply_of
  reply_of-IsReply id (ok payload) = success-IsReply id _
  reply_of-IsReply id (err e) = error-IsReply id _ _ _

  dispatch-IsReply :
      (id : Json) (name : Str) (call : Option (Action W ShimError Json)) (s : Server W)
      → IsReply id (dispatch b format id name call s).0
  unfolding dispatch finish
  dispatch-IsReply id name none s = error-IsReply id _ _ _
  dispatch-IsReply id name (some call) s = reply_of-IsReply id (call s.world).0

  decided-IsReply :
      (id : Json) (name : Str) (args : Json) (d : RetryDecision × SupervisorPolicy) (s : Server W)
      → IsReply id (decided b format id name args d s).0
  unfolding decided
  decided-IsReply id name args (proceed, p) s = dispatch-IsReply id name _ _
  decided-IsReply id name args (wait delay, p) s = error-IsReply id _ _ _
  decided-IsReply id name args (fail retry_after, p) s = error-IsReply id _ _ _

  admitted-IsReply :
      (id : Json) (name : Str) (args : Json) (q : QueueState × Bool) (s : Server W)
      → IsReply id (admitted b format id name args q s).0
  unfolding admitted
  admitted-IsReply id name args (queue, false) s = error-IsReply id _ _ _
  admitted-IsReply id name args (queue, true) s = decided-IsReply id name args _ _

  handle_tools_call-IsReply :
      (id params : Json) (s : Server W) → IsReply id (handle_tools_call b format id params s).0
  unfolding handle_tools_call named_call call_tool
  handle_tools_call-IsReply id params s = named-IsReply (get_str (str "name") params)
    where
      called-IsReply : (name : Str) (args : Json) → IsReply id (call_tool b format id name args s).0
      called-IsReply name args = elim (Bool-cases (str_eq name lsp_cpp_status)) [
        | inl status ↦ rw status (success-IsReply id _)
        | inr tool ↦ rw tool (admitted-IsReply id name args (try_acquire s.queue) s)
      ]

      named-IsReply : (name : Option Str) → IsReply id (named_call b format id params name s).0
      named-IsReply none = error-IsReply id _ _ _
      named-IsReply (some name) = called-IsReply name _

-- Whether a message needs no reply, by its method: `notifications/initialized` never does, and what
-- the server does not know does not if it has no id.
abbrev pub is_silent_method : Bool → Option Str → Bool
is_silent_method is_notification none = is_notification
is_silent_method is_notification (some method) =
    if str_eq method initialize
    then false
    else if str_eq method initialized
    then true
    else if str_eq method tools_list
    then false
    else if str_eq method tools_call
    then false
    else if str_eq method shutdown
    then false
    else is_notification

abbrev pub is_silent : Json → Bool
is_silent request =
    is_silent_method (is_none (get (str "id") request)) (get_str (str "method") request)

abbrev pub IsAnswer : Bool → Json → Option Json → Type 0
IsAnswer true id reply = reply ≡ none
IsAnswer false id none = ⊥
IsAnswer false id (some reply) = IsReply id reply

module _ {W : Type 0} (b : LspBackend W) (format : Format) (s : Server W) where
  unless-IsAnswer :
      (is_notification : Bool) (id : Json) (code : ℤ) (message : Str) (value : Option Json)
      → IsAnswer is_notification id
          (unless_notification is_notification (error_response id code message value))
  unless-IsAnswer true id code message value = refl
  unless-IsAnswer false id code message value = error-IsReply id code message value

  method-IsAnswer :
      (id : Json) (is_notification : Bool) (params : Json) (method : Str)
      → IsAnswer
          (is_silent_method is_notification (some method))
          id
          (handle_method b format id is_notification params method s).0
  unfolding handle_method shut_down
  method-IsAnswer id is_notification params method = elim (Bool-cases (str_eq method initialize)) [
    | inl e ↦ rw e (success-IsReply id _)
    | inr e₁ ↦ rw e₁ (elim (Bool-cases (str_eq method initialized)) [
      | inl e ↦ rw e refl
      | inr e₂ ↦ rw e₂ (elim (Bool-cases (str_eq method tools_list)) [
        | inl e ↦ rw e (success-IsReply id _)
        | inr e₃ ↦ rw e₃ (elim (Bool-cases (str_eq method tools_call)) [
          | inl e ↦ rw e (handle_tools_call-IsReply b format id params s)
          | inr e₄ ↦ rw e₄ (elim (Bool-cases (str_eq method shutdown)) [
            | inl e ↦ rw e (success-IsReply id null)
            | inr e₅ ↦ rw e₅ (unless-IsAnswer is_notification id _ _ _)
          ])
        ])
      ])
    ])
  ]

  with_method-IsAnswer :
      (id : Json) (is_notification : Bool) (params : Json) (method : Option Str)
      → IsAnswer
          (is_silent_method is_notification method)
          id
          (with_method b format id is_notification params method s).0
  unfolding with_method
  with_method-IsAnswer id is_notification params none = unless-IsAnswer is_notification id _ _ _
  with_method-IsAnswer id is_notification params (some method) =
      method-IsAnswer id is_notification params method

  -- A line that is JSON is answered if and only if it needs an answer: with a response that has the id
  -- of the request, or `null` where it has none, and either a result or an error. Nothing that clangd
  -- does, the queue or the supervisor decide takes a reply away.
  pub handle_message-answers :
      (line : Str) (request : Json)
      → format.from_str line ≡ ok request
      → IsAnswer
          (is_silent request)
          (unwrap_or (get (str "id") request) null)
          (handle_message b format line s).0
  unfolding handle_message handle_parsed handle_request
  handle_message-answers line request e = rw e (
      with_method-IsAnswer (unwrap_or (get (str "id") request) null)
        (is_none (get (str "id") request)) (unwrap_or (get (str "params") request) null)
        (get_str (str "method") request))
