-- ===== src/LspCpp/Clangd/Request.antt =====
-- lsp-cpp/src/clangd.rs: a request to clangd and the wait for its answer. `show` writes JSON in an
-- error's text.
use mcp_tools.Prelude.{
  ℕ, zero, suc, ◌+◌, Bool, true, false, Option, none, some, [], ◌∷◌, ◌++◌, ltb, ◌==◌, Str, str,
  str_eq, if◌then◌else◌,
}
use mcp_tools.Prelude.Int.{ℤ, pos, negsuc}
use mcp_tools.Prelude.Json.{Json, null, number, text, get, as_i64, unwrap_or, ◌>>=◌}
use mcp_tools.Prelude.Result.{Result, ok, err}
use mcp_tools.Prelude.Action.{Action}
use mcp_tools.LspCpp.Error.{ShimError, protocol}
use mcp_tools.LspCpp.Supervisor.{from_secs}
use mcp_tools.LspCpp.Mcp.Reply.{json_object}
use mcp_tools.LspCpp.Clangd.{Os, Clangd, Machine, next_request_id, classify_timeout}

abbrev pub same_id : ℤ → Option ℤ → Bool
same_id id none = false
same_id (pos m) (some (pos n)) = m == n
same_id (negsuc m) (some (negsuc n)) = m == n
same_id _ _ = false

abbrev pub id_of : Json → Option ℤ
id_of value = get (str "id") value >>= as_i64

-- What came of the wait.
pub data Awaited : Type 0 where
  answered : Result Json ShimError → Awaited
  timed_out : Awaited

unfoldable pub request_timeout_for_method : Clangd → Str → ℕ
request_timeout_for_method c method =
    if str_eq method (str "workspace/symbol")
    then (if ltb c.request_timeout_s 90 then 90 else c.request_timeout_s)
    else c.request_timeout_s

module _ {W : Type 0} (os : Os W) where
  -- The answer in a message with the right id.
  abbrev answer_in : (Json → ShimError) → Json → Option Json → Result Json ShimError
  answer_in failure value (some error) = err (failure error)
  answer_in failure value none = ok (unwrap_or (get (str "result") value) null)

  -- A message of another id, or of none, is dropped, and the wait goes on with `rest`.
  abbrev pub on_message :
      (Json → ShimError) → ℤ → (W → Awaited × W) → Result Json ShimError × W → Awaited × W
  on_message failure id rest (err e, w) = (answered (err e), w)
  on_message failure id rest (ok value, w) =
      if same_id id (id_of value)
      then (answered (answer_in failure value (get (str "error") value)), w)
      else rest w

  unfoldable pub await_within : ℕ → (Json → ShimError) → ℤ → ℕ → W → Awaited × W
  await_within zero failure id deadline w = (timed_out, w)
  await_within (suc rounds) failure id deadline w =
      if ltb deadline (os.now_ns w)
      then (timed_out, w)
      else on_message failure id (await_within rounds failure id deadline) (os.recv w)

  -- Each message takes a nanosecond at least, so there are no more of them than nanoseconds.
  unfoldable pub await : (Json → ShimError) → ℤ → ℕ → W → Awaited × W
  unfolding await_within
  await failure id timeout w = await_within (timeout + 2) failure id (os.now_ns w + timeout) w

  abbrev pub envelope : Option ℤ → Str → Json → Json
  envelope (some id) method params = json_object (
      (str "jsonrpc", text (str "2.0"))
      ∷ (str "id", number id)
      ∷ (str "method", text method)
      ∷ (str "params", params)
      ∷ [])
  envelope none method params = json_object (
      (str "jsonrpc", text (str "2.0")) ∷ (str "method", text method) ∷ (str "params", params) ∷ [])

  -- A message is written to the child, if there is a pipe to it.
  abbrev pub send_on : Bool → Json → Action (Machine W) ShimError (Unit {0})
  send_on false payload m = (err (protocol (str "clangd stdin not initialised")), m)
  send_on true payload m = let (sent, w) = os.send payload m.world in (sent, record m { world = w })

  -- `notify` behind `ensure_spawned`
  unfoldable pub notify_spawned : Str → Json → Action (Machine W) ShimError (Unit {0})
  notify_spawned method params m = send_on m.clangd.stdin (envelope none method params) m

  module _ (show : Json → Str) where
    abbrev error_response_to : Str → Json → ShimError
    error_response_to method error =
        protocol (str "clangd error response to " ++ method ++ str ": " ++ show error)

    abbrev on_awaited : Str → ℕ → Awaited × W → Machine W → Result Json ShimError × Machine W
    on_awaited method timeout_s (answered result, w) m = (result, record m { world = w })
    on_awaited method timeout_s (timed_out, w) m =
        let (failure, m₁) = classify_timeout os method timeout_s (record m { world = w }) in
        (err failure, m₁)

    abbrev read_answer :
        Str → ℤ → Result (Unit {0}) ShimError × Machine W → Result Json ShimError × Machine W
    read_answer method id (err e, m) = (err e, m)
    read_answer method id (ok u, m) =
        let timeout_s = request_timeout_for_method m.clangd method in
        if m.clangd.stdout
        then on_awaited method timeout_s
            (await (error_response_to method) id (from_secs timeout_s) m.world) m
        else (err (protocol (str "clangd stdout not initialised")), m)

    -- `request` behind `ensure_spawned`
    unfoldable pub request_spawned : Str → Json → Action (Machine W) ShimError Json
    unfolding next_request_id classify_timeout request_timeout_for_method await
    request_spawned method params m =
        let (id, c) = next_request_id m.clangd in
        read_answer method id
          (send_on c.stdin (envelope (some id) method params) (record m { clangd = c }))
