-- ===== src/LspRust/Shutdown.antt =====
-- lsp-rust/src/lsp.rs: the end of the child.
use mcp_tools.Prelude.{
  ℕ, zero, suc, ◌+◌, Bool, true, false, Option, none, some, List, [], ◌∷◌, ◌++◌, length, ltb, Str,
  str, if◌then◌else◌,
}
use mcp_tools.Prelude.Decimal.{decimal}
use mcp_tools.Prelude.Json.{Json, null, text}
use mcp_tools.Prelude.Result.{Result, ok, err}
use mcp_tools.Prelude.Action.{Action}
use mcp_tools.LspCpp.Error.{IoError}
use mcp_tools.LspCpp.Supervisor.{from_secs}
use mcp_tools.LspCpp.Mcp.Reply.{json_object}
use mcp_tools.LspRust.Error.{LspShimError, io, json}
use mcp_tools.LspRust.Client.{Os, Machine}
use mcp_tools.LspRust.Answers.{Serde}
use mcp_tools.LspRust.Session.{request_once}
use mcp_tools.LspRust.Requests.{from_millis}

abbrev exit_message : Json
exit_message = json_object (
    (str "jsonrpc", text (str "2.0"))
    ∷ (str "method", text (str "exit"))
    ∷ (str "params", null)
    ∷ [])

module _ {W : Type 0} (os : Os W) (serde : Serde) where
  abbrev on_waited :
      (W → Result (Unit {0}) LspShimError × W)
      → ℕ
      → ℕ
      → Result Bool IoError × W
      → Result (Unit {0}) LspShimError × W
  on_waited rest child deadline (err e, w) = (err (io e), w)
  on_waited rest child deadline (ok true, w) = (ok tt, w)
  on_waited rest child deadline (ok false, w) =
      if ltb deadline (os.now_ns w)
      then (ok tt, os.kill_and_wait child w)
      else rest (os.sleep (from_millis 25) w)

  unfoldable pub reap_within : ℕ → ℕ → ℕ → W → Result (Unit {0}) LspShimError × W
  reap_within zero child deadline w = (ok tt, w)
  reap_within (suc rounds) child deadline w =
      on_waited (reap_within rounds child deadline) child deadline (os.try_wait child w)

  abbrev take_child : ℕ → Machine W → Result (Unit {0}) LspShimError × Machine W
  take_child child m =
      let (result, w) = reap_within 43 child (os.now_ns m.world + from_secs 1) m.world in
      (result, record m { client = record (m.client) { stdin = false; child = none }; world = w })

  -- The message `exit` is written as well as it can be.
  abbrev write_exit : List ℕ → W → W
  write_exit body w =
      let w₁ = (os.write (str "Content-Length: " ++ decimal (length body) ++ str "\r\n\r\n") w).1 in
      (os.flush (os.write body w₁).1).1

  abbrev say_exit : Result (List ℕ) Str → Machine W → Result (Unit {0}) LspShimError × Machine W
  say_exit (err e) m = (err (json e), m)
  say_exit (ok body) m = (ok tt, record m { world = write_exit body m.world })

  abbrev exit_on : Bool → Machine W → Result (Unit {0}) LspShimError × Machine W
  exit_on false m = (ok tt, m)
  exit_on true m = say_exit (serde.to_vec exit_message) m

  abbrev after_exit :
      ℕ → Result (Unit {0}) LspShimError × Machine W → Result (Unit {0}) LspShimError × Machine W
  after_exit child (err e, m) = (err e, m)
  after_exit child (ok done, m) = take_child child m

  abbrev end_child : Option ℕ → Machine W → Result (Unit {0}) LspShimError × Machine W
  end_child none m = (ok tt, m)
  end_child (some child) m =
      let m₁ = (request_once os serde (str "shutdown") null m).1 in
      after_exit child (exit_on m₁.client.stdin m₁)

  -- 25 ms pass in a round, of the second that the child has.
  unfoldable pub shutdown : Action (Machine W) LspShimError (Unit {0})
  unfolding reap_within request_once
  shutdown m = end_child m.client.child m
