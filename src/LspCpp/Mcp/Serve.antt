-- ===== src/LspCpp/Mcp/Serve.antt =====
-- lsp-cpp/src/mcp.rs: a message, and the loop over the lines of the input. What a client writes between
-- two replies is the next line; the machine may move while the server waits for it.
use mcp_tools.Prelude.{
  ℕ, zero, suc, Bool, true, false, Option, none, some, ◌++◌, Str, str, str_eq, trim, is_empty,
  if◌then◌else◌,
}
use mcp_tools.Prelude.Result.{Result, ok, err}
use mcp_tools.Prelude.Action.{Action}
use mcp_tools.Prelude.Json.{Json, null, get, get_str, unwrap_or}
use mcp_tools.LspCpp.Error.{IoError}
use mcp_tools.LspCpp.Backend.{LspBackend}
use mcp_tools.LspCpp.Mcp.Reply.{
  success_response, error_response, initialize_result, tools_list_result, invalid_params,
  method_not_found, parse_error, initialize, initialized, tools_list, tools_call, shutdown,
}
use mcp_tools.LspCpp.Mcp.Calls.{Server, Format, handle_tools_call}

abbrev pub is_none : {A : Type 0} → Option A → Bool
is_none none = true
is_none (some a) = false

-- The input and the output of the loop. No line is the end of the input.
pub record Stdio (W : Type 0) : Type 0 where
  pub read_line : Action W IoError (Option Str)
  pub write_line : Str → Action W IoError (Unit {0})

abbrev replied : {S : Type 0} → Json × S → Option Json × S
replied (reply, s) = (some reply, s)

abbrev pub unless_notification : Bool → Json → Option Json
unless_notification true reply = none
unless_notification false reply = some reply

module _ {W : Type 0} (b : LspBackend W) (format : Format) where
  unfoldable pub shut_down : Json → Server W → Option Json × Server W
  shut_down id s = (some (success_response id null), record s { world = (b.shutdown s.world).1 })

  unfoldable pub handle_method : Json → Bool → Json → Str → Server W → Option Json × Server W
  unfolding shut_down
  handle_method id is_notification params method s =
      if str_eq method initialize
      then (some (success_response id (initialize_result format.version)), s)
      else if str_eq method initialized
      then (none, s)
      else if str_eq method tools_list
      then (some (success_response id tools_list_result), s)
      else if str_eq method tools_call
      then replied (handle_tools_call b format id params s)
      else if str_eq method shutdown
      then shut_down id s
      else (
        unless_notification is_notification
            (error_response id method_not_found (str "unknown method: " ++ method) none),
        s,
      )

  unfoldable pub with_method : Json → Bool → Json → Option Str → Server W → Option Json × Server W
  unfolding handle_method
  with_method id is_notification params none s = (
    unless_notification is_notification
        (error_response id invalid_params (str "missing `method` field") none),
    s,
  )
  with_method id is_notification params (some method) s =
      handle_method id is_notification params method s

  unfoldable pub handle_request : Json → Server W → Option Json × Server W
  unfolding with_method
  handle_request request s =
      let id = get (str "id") request in
      with_method (unwrap_or id null) (is_none id) (unwrap_or (get (str "params") request) null)
        (get_str (str "method") request) s

  unfoldable pub handle_parsed : Result Json Str → Server W → Option Json × Server W
  unfolding handle_request
  handle_parsed (ok request) s = handle_request request s
  handle_parsed (err e) s =
      (some (error_response null parse_error (str "malformed JSON: " ++ e) none), s)

  unfoldable pub handle_message : Str → Server W → Option Json × Server W
  unfolding handle_parsed
  handle_message line s = handle_parsed (format.from_str line) s

  -- The line that is written for a reply.
  abbrev pub body_of : Result Str Str → Str
  body_of (ok body) = body
  body_of (err e) =
      str
        "{\"jsonrpc\":\"2.0\",\"error\":{\"code\":-32603,\"message\":\"failed to serialize response: "
      ++ e
      ++ str "\"}}"

  module _ (io : Stdio W) where
    abbrev write_reply : Option Json × Server W → Result (Unit {0}) IoError × Server W
    write_reply (none, s) = (ok tt, s)
    write_reply (some response, s) =
        let (result, w) = io.write_line (body_of (format.to_string response)) s.world in
        (result, record s { world = w })

    -- The line is answered, unless it is blank.
    unfoldable pub answer_line : Str → Server W → Result (Unit {0}) IoError × Server W
    unfolding handle_message trim
    answer_line line s =
        if is_empty (trim line) then (ok tt, s) else write_reply (handle_message (trim line) s)

    -- What the loop does with a line that was read: it ends at the end of the input, and at an error.
    -- `rest` is the loop's next round.
    abbrev on_line :
        (Server W → Option (Result (Unit {0}) IoError) × Server W)
        → Result (Option Str) IoError
        → Server W
        → Option (Result (Unit {0}) IoError) × Server W
    on_line rest (err e) s = (some (err e), s)
    on_line rest (ok none) s = (some (ok tt), s)
    on_line rest (ok (some line)) s = on_answer (answer_line line s)
      where
        on_answer :
            Result (Unit {0}) IoError × Server W → Option (Result (Unit {0}) IoError) × Server W
        on_answer (ok tt, s) = rest s
        on_answer (err e, s) = (some (err e), s)

    -- No result after so many rounds: the loop goes on.
    unfoldable pub serve_within : ℕ → Server W → Option (Result (Unit {0}) IoError) × Server W
    serve_within zero s = (none, s)
    serve_within (suc rounds) s =
        let (line, w) = io.read_line s.world in
        on_line (serve_within rounds) line (record s { world = w })
