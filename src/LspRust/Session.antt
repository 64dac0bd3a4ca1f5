-- ===== src/LspRust/Session.antt =====
-- lsp-rust/src/lsp.rs: how rust-analyzer is started, and one request to it.
use mcp_tools.Prelude.{
  ℕ, zero, suc, ◌+◌, Bool, true, false, not, Option, none, some, [], ◌∷◌, ◌++◌, ltb, ◌==◌, Str, str,
  if◌then◌else◌,
}
use mcp_tools.Prelude.Json.{Json, boolean, text, array, items_of, nat, get_u64}
use mcp_tools.Prelude.Result.{Result, ok, err, map_err}
use mcp_tools.Prelude.Action.{Action, ◌>>=◌, ◌>>◌, reads, pure}
use mcp_tools.LspCpp.Error.{IoError}
use mcp_tools.LspCpp.Supervisor.{from_secs}
use mcp_tools.LspCpp.Mcp.Reply.{json_object}
use mcp_tools.LspRust.Error.{LspShimError, timeout, protocol, io}
use mcp_tools.LspRust.Client.{
  Os, Started, RustAnalyzerClient, Machine, initialize_timeout_secs, next_request_id,
}
use mcp_tools.LspRust.Answers.{Serde, answer_of, initialize_answer}

abbrev pub is_id : ℕ → Option ℕ → Bool
is_id id none = false
is_id id (some other) = other == id

-- What came of the wait for an answer.
pub data Awaited : Type 0 where
  answered : Result Json LspShimError → Awaited
  timed_out : Awaited

abbrev pub envelope : ℕ → Str → Json → Json
envelope id method params = json_object (
    (str "jsonrpc", text (str "2.0"))
    ∷ (str "id", nat id)
    ∷ (str "method", text method)
    ∷ (str "params", params)
    ∷ [])

abbrev pub initialized_message : Json
initialized_message = json_object (
    (str "jsonrpc", text (str "2.0"))
    ∷ (str "method", text (str "initialized"))
    ∷ (str "params", json_object [])
    ∷ [])

module _ {W : Type 0} (os : Os W) (serde : Serde) where
  -- A message of another id, or of none, is dropped, and the wait goes on with `rest`.
  abbrev pub on_message :
      ℕ
      → (Json → Result Json LspShimError)
      → (W → Awaited × W)
      → Result Json LspShimError × W
      → Awaited × W
  on_message id read rest (err e, w) = (answered (err e), w)
  on_message id read rest (ok value, w) =
      if is_id id (get_u64 (str "id") value) then (answered (read value), w) else rest w

  unfoldable pub await_within :
      ℕ → ℕ → (Json → Result Json LspShimError) → Action W LspShimError Json → ℕ → W → Awaited × W
  await_within zero id read receive deadline w = (timed_out, w)
  await_within (suc rounds) id read receive deadline w =
      if ltb deadline (os.now_ns w)
      then (timed_out, w)
      else on_message id read (await_within rounds id read receive deadline) (receive w)

  -- Each message takes a nanosecond at least, so there are no more of them than nanoseconds.
  unfoldable pub await :
      ℕ → (Json → Result Json LspShimError) → Action W LspShimError Json → ℕ → W → Awaited × W
  unfolding await_within
  await id read receive timeout_ns w =
      await_within (timeout_ns + 2) id read receive (os.now_ns w + timeout_ns) w

  -- A message is read from the child, if there is a pipe to it.
  abbrev receive_on : Bool → Str → Action W LspShimError Json
  receive_on false name w = (err (protocol (str "stdout not initialised")), w)
  receive_on true name w =
      let (received, w₁) = os.recv w in
      (map_err (λ e. protocol (name ++ str ": " ++ e.message)) received, w₁)

  abbrev send_on : Bool → Json → Action (Machine W) LspShimError (Unit {0})
  send_on false payload m = (err (protocol (str "stdin not initialised")), m)
  send_on true payload m =
      let (sent, w) = os.send payload m.world in (map_err io sent, record m { world = w })

  abbrev on_awaited : Str → ℕ → Awaited × W → Machine W → Result Json LspShimError × Machine W
  on_awaited method timeout_s (answered result, w) m = (result, record m { world = w })
  on_awaited method timeout_s (timed_out, w) m =
      (err (timeout method timeout_s m.client.log_path), record m { world = w })

  -- A request with the id that is drawn for it, and its answer read by `read`.
  abbrev pub exchange :
      Str
      → Str
      → Json
      → (Json → Result Json LspShimError)
      → ℕ
      → Action (Machine W) LspShimError Json
  exchange method name params read timeout_s m =
      let (id, c) = next_request_id m.client in
      (send_on c.stdin (envelope id method params) >> (λ m₁.
          on_awaited method timeout_s
            (await id read (receive_on m₁.client.stdout name) (from_secs timeout_s) m₁.world) m₁))
        (record m { client = c })

  unfoldable pub request_once : Str → Json → Action (Machine W) LspShimError Json
  unfolding next_request_id await answer_of
  request_once method params m =
      exchange method (str "recv " ++ method) params (answer_of serde method) m.client.timeout_s m

  module _ (process_id : ℕ) (version : Str) where
    abbrev flag : Str → Json
    flag name = json_object ((name, boolean false) ∷ [])

    abbrev initialize_params : RustAnalyzerClient → Json
    initialize_params c = json_object (
        (str "processId", nat process_id)
        ∷ (str "rootUri", text (str "file://" ++ c.workspace))
        ∷ (
          str "capabilities",
          json_object (
              (
                str "workspace",
                json_object (
                    (str "symbol", flag (str "dynamicRegistration"))
                    ∷ (str "diagnostic", flag (str "refreshSupport"))
                    ∷ []),
              )
              ∷ (
                str "textDocument",
                json_object (
                    (str "definition", json_object [])
                    ∷ (str "references", json_object [])
                    ∷ (
                      str "hover",
                      json_object (
                          (
                            str "contentFormat",
                            array (items_of (text (str "plaintext") ∷ text (str "markdown") ∷ [])),
                          )
                          ∷ []),
                    )
                    ∷ (str "diagnostic", flag (str "dynamicRegistration"))
                    ∷ []),
              )
              ∷ []),
        )
        ∷ (
          str "clientInfo",
          json_object ((str "name", text (str "lsp-rust")) ∷ (str "version", text version) ∷ []),
        )
        ∷ [])

    -- An action on the machine below.
    abbrev on_world :
        {A : Type 0}
        → Action W IoError A
        → (IoError → LspShimError)
        → Action (Machine W) LspShimError A
    on_world action failure m =
        let (result, w) = action m.world in (map_err failure result, record m { world = w })

    -- The child becomes the client's with both of its pipes, or not at all.
    abbrev attach : Started → Action (Machine W) LspShimError (Unit {0})
    attach started m =
        if not started.stdin
        then (err (protocol (str "rust-analyzer stdin handle missing")), m)
        else if not started.stdout
        then (err (protocol (str "rust-analyzer stdout handle missing")), m)
        else (
          ok tt,
          record m {
            client = record (m.client) {
              child = some started.process;
              stdin = true;
              stdout = true;
            };
          },
        )

    unfoldable pub handshake : Action (Machine W) LspShimError Json
    unfolding next_request_id await initialize_answer
    handshake m =
        exchange (str "initialize") (str "initialize recv") (initialize_params m.client)
          (initialize_answer serde) initialize_timeout_secs m

    unfoldable pub start : Action (Machine W) LspShimError (Unit {0})
    unfolding handshake
    start = do
      c ← reads (λ m. ok m.client)
      on_world (os.open_log c.log_path) io
      started ← on_world (os.spawn_process c.binary) (LspShimError.spawn c.binary)
      attach started
      answer ← handshake
      send_on true initialized_message

    abbrev unless_there :
        Option ℕ
        → Action (Machine W) LspShimError (Unit {0})
        → Action (Machine W) LspShimError (Unit {0})
    unless_there (some child) action = pure tt
    unless_there none action = action

    unfoldable pub spawn : Action (Machine W) LspShimError (Unit {0})
    unfolding start
    spawn m = unless_there m.client.child start m
