-- ===== src/LspRust/Serve.antt =====
-- lsp-rust/src/mcp.rs: a message, and the loop over the lines of the input.
use mcp_tools.Prelude.{
  ℕ, zero, suc, Bool, Option, none, some, [], ◌∷◌, ◌++◌, Str, str, str_eq, trim, is_empty,
  if◌then◌else◌,
}
use mcp_tools.Prelude.Result.{Result, ok, err}
use mcp_tools.Prelude.Json.{Json, null, text, get, get_str, unwrap_or}
use mcp_tools.LspCpp.Error.{IoError}
use mcp_tools.LspCpp.Mcp.Reply.{
  success_response, error_response, json_object, invalid_params, method_not_found, parse_error,
  initialize, initialized, tools_list, tools_call,
}
use mcp_tools.LspCpp.Mcp.Serve.{Stdio, is_none, unless_notification}
use mcp_tools.LspRust.Client.{Os, Machine}
use mcp_tools.LspRust.Answers.{Serde}
use mcp_tools.LspRust.Shutdown.{shutdown}
use mcp_tools.LspRust.Mcp.{Format, initialize_result, tools_list_result, handle_tools_call}

abbrev replied : {S : Type 0} → Json × S → Option Json × S
replied (reply, s) = (some reply, s)

module _ {W : Type 0} (os : Os W) (serde : Serde) (process_id : ℕ) (version : Str)
    (format : Format) where
  unfoldable pub handle_method : Json → Bool → Json → Str → Machine W → Option Json × Machine W
  unfolding handle_tools_call shutdown
  handle_method id is_notification params method m =
      if str_eq method initialize
      then (some (success_response id (initialize_result version)), m)
      else if str_eq method initialized
      then (none, m)
      else if str_eq method tools_list
      then (some (success_response id tools_list_result), m)
      else if str_eq method tools_call
      then replied (handle_tools_call os serde process_id version format id params m)
      else if str_eq method (str "shutdown")
      then (some (success_response id null), (shutdown os serde m).1)
      else (
        unless_notification is_notification (
            error_response id method_not_found (str "unknown method: " ++ method)
              (some (json_object ((str "error_kind", text (str "method_not_found")) ∷ [])))),
        m,
      )

  unfoldable pub with_method : Json → Bool → Json → Option Str → Machine W → Option Json × Machine W
  unfolding handle_method
  with_method id is_notification params none m = (
    unless_notification is_notification
        (error_response id invalid_params (str "missing `method` field") none),
    m,
  )
  with_method id is_notification params (some method) m =
      handle_method id is_notification params method m

  unfoldable pub handle_parsed : Result Json Str → Machine W → Option Json × Machine W
  unfolding with_method
  handle_parsed (err e) m =
      (some (error_response null parse_error (str "malformed JSON: " ++ e) none), m)
  handle_parsed (ok request) m =
      with_method (unwrap_or (get (str "id") request) null) (is_none (get (str "id") request))
        (unwrap_or (get (str "params") request) null) (get_str (str "method") request) m

  unfoldable pub handle_message : Str → Machine W → Option Json × Machine W
  unfolding handle_parsed
  handle_message line m = handle_parsed (format.from_str line) m

  -- The line that is written for a reply.
  abbrev body_of : Result Str Str → Str
  body_of (ok body) = body
  body_of (err e) =
      str
        "{\"jsonrpc\":\"2.0\",\"error\":{\"code\":-32603,\"message\":\"failed to serialize response: "
      ++ e
      ++ str "\"}}"

  module _ (io : Stdio W) where
    abbrev write_reply : Option Json × Machine W → Result (Unit {0}) IoError × Machine W
    write_reply (none, m) = (ok tt, m)
    write_reply (some response, m) =
        let (result, w) = io.write_line (body_of (format.to_string response)) m.world in
        (result, record m { world = w })

    -- The line is answered, unless it is blank.
    unfoldable pub answer_line : Str → Machine W → Result (Unit {0}) IoError × Machine W
    unfolding handle_message trim
    answer_line line m =
        if is_empty (trim line) then (ok tt, m) else write_reply (handle_message (trim line) m)

    abbrev on_answer :
        (Machine W → Option (Result (Unit {0}) IoError) × Machine W)
        → Result (Unit {0}) IoError × Machine W
        → Option (Result (Unit {0}) IoError) × Machine W
    on_answer rest (ok done, m) = rest m
    on_answer rest (err e, m) = (some (err e), m)

    -- The loop ends at the end of the input, and at an error. `rest` is its next round.
    abbrev on_line :
        (Machine W → Option (Result (Unit {0}) IoError) × Machine W)
        → Result (Option Str) IoError
        → Machine W
        → Option (Result (Unit {0}) IoError) × Machine W
    on_line rest (err e) m = (some (err e), m)
    on_line rest (ok none) m = (some (ok tt), m)
    on_line rest (ok (some line)) m = on_answer rest (answer_line line m)

    -- No result after so many rounds: the loop goes on.
    unfoldable pub serve_within : ℕ → Machine W → Option (Result (Unit {0}) IoError) × Machine W
    unfolding answer_line
    serve_within zero m = (none, m)
    serve_within (suc rounds) m =
        let (line, w) = io.read_line m.world in
        on_line (serve_within rounds) line (record m { world = w })
