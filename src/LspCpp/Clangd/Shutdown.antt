-- ===== src/LspCpp/Clangd/Shutdown.antt =====
-- lsp-cpp/src/clangd.rs: the end of the child, and `Clangd` as the server's backend.
use mcp_tools.Prelude.{ℕ, zero, suc, ◌+◌, false, Option, none, some, ltb, Str, str, if◌then◌else◌}
use mcp_tools.Prelude.Json.{Json, null}
use mcp_tools.Prelude.Result.{Result, ok, err}
use mcp_tools.Prelude.Action.{Action}
use mcp_tools.LspCpp.Error.{ShimError, IoError, io}
use mcp_tools.LspCpp.Backend.{LspBackend}
use mcp_tools.LspCpp.Supervisor.{from_secs}
use mcp_tools.LspCpp.Clangd.{Os, Machine, ExitStatus, is_alive}
use mcp_tools.LspCpp.Clangd.Request.{notify_spawned, request_spawned}
use mcp_tools.LspCpp.Clangd.Spawn.{spawn}
use mcp_tools.LspCpp.Clangd.Queries.{definition, references, hover, workspace_symbol}
use mcp_tools.LspCpp.Clangd.Index.{Disk, build_full_index}

module _ {W : Type 0} (os : Os W) (show : Json → Str) where
  -- A child that is there: it is killed when the deadline is over, and asked again otherwise.
  abbrev on_waited :
      (W → Result (Unit {0}) ShimError × W)
      → ℕ
      → ℕ
      → Result (Option ExitStatus) IoError × W
      → Result (Unit {0}) ShimError × W
  on_waited rest child deadline (err e, w) = (err (io e), w)
  on_waited rest child deadline (ok (some status), w) = (ok tt, w)
  on_waited rest child deadline (ok none, w) =
      if ltb deadline (os.now_ns w)
      then (ok tt, os.kill_and_wait child w)
      else rest (os.sleep 50_000_000 w)

  unfoldable pub reap_within : ℕ → ℕ → ℕ → W → Result (Unit {0}) ShimError × W
  reap_within zero child deadline w = (ok tt, w)
  reap_within (suc rounds) child deadline w =
      on_waited (reap_within rounds child deadline) child deadline (os.try_wait child w)

  abbrev take_child : ℕ → Machine W → Result (Unit {0}) ShimError × Machine W
  take_child child m =
      let (result, w) = reap_within 43 child (os.now_ns m.world + from_secs 2) m.world in
      (result, record m { clangd = record (m.clangd) { stdin = false; child = none }; world = w })

  -- The farewell is sent as well as it can be; 50 ms pass in a round, of the 2 s that the child has.
  abbrev end_child : Option ℕ → Machine W → Result (Unit {0}) ShimError × Machine W
  end_child none m = (ok tt, m)
  end_child (some child) m =
      let m₁ = (request_spawned os show (str "shutdown") null m).1 in
      take_child child (notify_spawned os (str "exit") null m₁).1

  unfoldable pub shutdown : Action (Machine W) ShimError (Unit {0})
  unfolding reap_within request_spawned notify_spawned
  shutdown m = end_child m.clangd.child m

  module _ (disk : Disk W) (process_id : ℕ) where
    unfoldable pub clangd_backend : LspBackend (Machine W)
    unfolding shutdown
    clangd_backend = record {
      spawn = spawn os show process_id;
      definition = definition os show process_id;
      references = references os show process_id;
      hover = hover os show process_id;
      workspace_symbol = workspace_symbol os show process_id;
      shutdown = shutdown;
      build_full_index = build_full_index os disk show process_id;
      is_alive = is_alive os;
      last_exit_status = λ m. m.clangd.last_exit_status;
      clangd_pid = λ m. m.clangd.child;
      now_ns = λ m. os.now_ns m.world;
    }
