-- ===== src/LspRust/Replies.antt =====
-- lsp-rust/src/mcp.rs: every message that needs a reply gets one, with its own id.
use mcp_tools.Prelude.{
  ◌≡◌, refl, Bool, true, false, Bool-cases, Option, none, some, inl, inr, Str, str, str_eq, ℕ,
}
use mcp_tools.Prelude.Result.{Result, ok, err}
use mcp_tools.Prelude.Action.{Action}
use mcp_tools.Prelude.Int.{ℤ}
use mcp_tools.Prelude.Json.{Json, null, get, get_str, unwrap_or, object, end_fields}
use mcp_tools.LspCpp.Mcp.Reply.{error_response, initialize, initialized, tools_list, tools_call}
use mcp_tools.LspCpp.Mcp.Serve.{is_none, unless_notification}
use mcp_tools.LspCpp.Mcp.Replies.{
  IsReply, IsAnswer, is_silent, is_silent_method, success-IsReply, error-IsReply,
}
use mcp_tools.LspRust.Error.{LspShimError}
use mcp_tools.LspRust.Client.{Os, Machine}
use mcp_tools.LspRust.Answers.{Serde}
use mcp_tools.LspRust.Mcp.{Format, tool_of, reply_of, call_tool, named_call, handle_tools_call}
use mcp_tools.LspRust.Serve.{handle_method, with_method, handle_parsed, handle_message}

module _ {W : Type 0} (os : Os W) (serde : Serde) (process_id : ℕ) (version : Str) (format : Format)
    (m : Machine W) where
  reply_of-IsReply :
      (id : Json) (r : Result Json LspShimError)
      → IsReply id (reply_of os serde process_id version format id r)
  unfolding reply_of
  reply_of-IsReply id (ok payload) = success-IsReply id _
  reply_of-IsReply id (err e) = error-IsReply id _ _ _

  call_tool-IsReply :
      (id : Json) (name : Str) (call : Option (Action (Machine W) LspShimError Json))
      → IsReply id (call_tool os serde process_id version format id name call m).0
  unfolding call_tool
  call_tool-IsReply id name none = error-IsReply id _ _ _
  call_tool-IsReply id name (some call) = reply_of-IsReply id (call m).0

  named_call-IsReply :
      (id params : Json) (name : Option Str)
      → IsReply id (named_call os serde process_id version format id params name m).0
  unfolding named_call
  named_call-IsReply id params none = error-IsReply id _ _ _
  named_call-IsReply id params (some name) = call_tool-IsReply id name (
      tool_of os serde process_id version name
        (unwrap_or (get (str "arguments") params) (object end_fields)))

  unless-IsAnswer :
      (is_notification : Bool) (id : Json) (code : ℤ) (message : Str) (value : Option Json)
      → IsAnswer is_notification id
          (unless_notification is_notification (error_response id code message value))
  unless-IsAnswer true id code message value = refl
  unless-IsAnswer false id code message value = error-IsReply id code message value

  handle_method-IsAnswer :
      (id : Json) (is_notification : Bool) (params : Json) (method : Str)
      → IsAnswer
          (is_silent_method is_notification (some method))
          id
          (handle_method os serde process_id version format id is_notification params method m).0
  unfolding handle_method handle_tools_call
  handle_method-IsAnswer id is_notification params method =
      elim (Bool-cases (str_eq method initialize)) [
        | inl e ↦ rw e (success-IsReply id _)
        | inr e₁ ↦ rw e₁ (elim (Bool-cases (str_eq method initialized)) [
          | inl e ↦ rw e refl
          | inr e₂ ↦ rw e₂ (elim (Bool-cases (str_eq method tools_list)) [
            | inl e ↦ rw e (success-IsReply id _)
            | inr e₃ ↦ rw e₃ (elim (Bool-cases (str_eq method tools_call)) [
              | inl e ↦ rw e (named_call-IsReply id params _)
              | inr e₄ ↦ rw e₄ (elim (Bool-cases (str_eq method (str "shutdown"))) [
                | inl e ↦ rw e (success-IsReply id null)
                | inr e₅ ↦ rw e₅ (unless-IsAnswer is_notification id _ _ _)
              ])
            ])
          ])
        ])
      ]

  with_method-IsAnswer :
      (id : Json) (is_notification : Bool) (params : Json) (method : Option Str)
      → IsAnswer
          (is_silent_method is_notification method)
          id
          (with_method os serde process_id version format id is_notification params method m).0
  unfolding with_method
  with_method-IsAnswer id is_notification params none = unless-IsAnswer is_notification id _ _ _
  with_method-IsAnswer id is_notification params (some method) =
      handle_method-IsAnswer id is_notification params method

  -- A line that is JSON is answered if and only if it needs an answer: with a response that has the id
  -- of the request, or `null` where it has none, and either a result or an error, whatever
  -- rust-analyzer does.
  pub handle_message-IsAnswer :
      (line : Str) (request : Json)
      → format.from_str line ≡ ok request
      → IsAnswer
          (is_silent request)
          (unwrap_or (get (str "id") request) null)
          (handle_message os serde process_id version format line m).0
  unfolding handle_message handle_parsed
  handle_message-IsAnswer line request e = rw e (
      with_method-IsAnswer (unwrap_or (get (str "id") request) null)
        (is_none (get (str "id") request)) (unwrap_or (get (str "params") request) null)
        (get_str (str "method") request))
