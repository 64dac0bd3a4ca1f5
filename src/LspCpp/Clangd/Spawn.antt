-- ===== src/LspCpp/Clangd/Spawn.antt =====
-- lsp-cpp/src/clangd.rs: how the child is started, warmed up, asked and shut down. The lines that go to
-- the shim's log are left out. While a child is there `ensure_spawned` does nothing, so what runs inside
-- `spawn` asks the child directly.
use mcp_tools.Prelude.{
  ℕ, zero, suc, ◌+◌, ◌*◌, Bool, true, false, not, Option, none, some, List, [], ◌∷◌, ◌++◌, leb, Str,
  str, is_empty, if◌then◌else◌,
}
use mcp_tools.Prelude.Decimal.{parse_usize}
use mcp_tools.Prelude.Json.{Json, boolean, text, array, items_of, nat}
use mcp_tools.Prelude.Result.{Result, ok, err, map_err}
use mcp_tools.Prelude.Action.{Action, ◌>>=◌, ◌>>◌, reads, pure}
use mcp_tools.LspCpp.Error.{
  ShimError, IoError, ErrorKind, protocol, io, clangd_missing, initialize_timeout,
}
use mcp_tools.LspCpp.Supervisor.{from_secs}
use mcp_tools.LspCpp.Mcp.Reply.{json_object}
use mcp_tools.LspCpp.Clangd.{Os, Clangd, Machine, next_request_id}
use mcp_tools.LspCpp.Clangd.Launch.{
  effective_seed_headers, resolve_compile_commands_dir, check_index_file, clangd_args,
}
use mcp_tools.LspCpp.Clangd.Request.{
  Awaited, answered, timed_out, await, notify_spawned, request_spawned, send_on, envelope,
}
use mcp_tools.LspCpp.Clangd.Answers.{parse_symbols}

abbrev default_warmup_timeout_s : ℕ
default_warmup_timeout_s = 60

abbrev warmup_probe_symbol : Str
warmup_probe_symbol = str "AActor"

abbrev pub query_params : Str → Json
query_params query = json_object ((str "query", text query) ∷ [])

abbrev is_set : Option Str → Bool
is_set none = false
is_set (some v) = not (is_empty v)

abbrev timeout_of : Option Str → ℕ
timeout_of none = default_warmup_timeout_s
timeout_of (some v) = or_default (parse_usize v)
  where
    or_default : Option ℕ → ℕ
    or_default none = default_warmup_timeout_s
    or_default (some n) = n

abbrev missing : Str → IoError → ShimError
missing path e = missing_kind e.kind
  where
    missing_kind : ErrorKind → ShimError
    missing_kind ErrorKind.not_found = clangd_missing path
    missing_kind _ = io e

-- The parameters of a `textDocument/didOpen`.
abbrev pub open_params : Str → Str → Json
open_params uri contents = json_object (
    (
      str "textDocument",
      json_object (
          (str "uri", text uri)
          ∷ (str "languageId", text (str "cpp"))
          ∷ (str "version", nat 1)
          ∷ (str "text", text contents)
          ∷ []),
    )
    ∷ [])

module _ {W : Type 0} (os : Os W) (show : Json → Str) (process_id : ℕ) where
  -- An action on the machine below.
  abbrev on_world :
      {A : Type 0} → Action W IoError A → (IoError → ShimError) → Action (Machine W) ShimError A
  on_world action failure m =
      let (result, w) = action m.world in (map_err failure result, record m { world = w })

  -- One header is opened as far as it can be; what goes wrong is only logged.
  abbrev seed_one : Str → Result Str IoError → Machine W → Machine W
  seed_one path (err e) m = m
  seed_one path (ok contents) m =
      (notify_spawned os (str "textDocument/didOpen") (open_params (str "file://" ++ path) contents)
        m).1

  abbrev seed_all : List Str → Machine W → Machine W
  seed_all [] m = m
  seed_all (path ∷ rest) m = seed_all rest (seed_one path (os.read_to_string m.world path) m)

  unfoldable pub seed_didopen : Action (Machine W) ShimError (Unit {0})
  unfolding notify_spawned effective_seed_headers
  seed_didopen m = (ok tt, seed_all (effective_seed_headers os.env m.clangd.project_root) m)

  -- A probe that found a symbol; an error is only logged.
  abbrev is_warm : Result Json ShimError → Bool
  is_warm (ok result) = not (is_empty (parse_symbols result))
  is_warm (err e) = false

  abbrev probed : (Machine W → Machine W) → ℕ → Result Json ShimError × Machine W → Machine W
  probed rest deadline (result, m) =
      if is_warm result
      then m
      else if leb deadline (os.now_ns m.world)
      then m
      else rest (record m { world = os.sleep 250_000_000 m.world })

  unfoldable pub warm_within : ℕ → ℕ → Machine W → Machine W
  unfolding request_spawned
  warm_within zero deadline m = m
  warm_within (suc rounds) deadline m =
      probed (warm_within rounds deadline) deadline
        (request_spawned os show (str "workspace/symbol") (query_params warmup_probe_symbol) m)

  -- A quarter of a second passes in each round at least.
  unfoldable pub wait_for_warm : Action (Machine W) ShimError (Unit {0})
  unfolding warm_within effective_seed_headers
  wait_for_warm m =
      let timeout_s = timeout_of (os.env (str "LSP_CPP_WARMUP_TIMEOUT_S")) in
      if is_set (os.env (str "LSP_CPP_WARMUP_DISABLE"))
      then (ok tt, m)
      else if is_empty (effective_seed_headers os.env m.clangd.project_root)
      then (ok tt, m)
      else (ok tt, warm_within (timeout_s * 4 + 2) (os.now_ns m.world + from_secs timeout_s) m)

  abbrev initialize_params : Clangd → Json
  initialize_params c = json_object (
      (str "processId", nat process_id)
      ∷ (str "rootUri", text (str "file://" ++ c.project_root))
      ∷ (
        str "capabilities",
        json_object (
            (
              str "workspace",
              json_object (
                  (str "symbol", json_object ((str "dynamicRegistration", boolean false) ∷ []))
                  ∷ []),
            )
            ∷ (
              str "textDocument",
              json_object (
                  (str "definition", json_object [])
                  ∷ (str "references", json_object [])
                  ∷ (
                    str "hover",
                    json_object (
                        (
                          str "contentFormat",
                          array (items_of (text (str "plaintext") ∷ text (str "markdown") ∷ [])),
                        )
                        ∷ []),
                  )
                  ∷ []),
            )
            ∷ []),
      )
      ∷ [])

  abbrev initialized : Awaited × W → Machine W → Result (Unit {0}) ShimError × Machine W
  initialized (answered (ok result), w) m = (ok tt, record m { world = w })
  initialized (answered (err e), w) m = (err e, record m { world = w })
  initialized (timed_out, w) m = (
    err (initialize_timeout m.clangd.initialize_timeout_s m.clangd.log_path),
    record m { world = w },
  )

  -- The handshake: `initialize` is sent, and its answer awaited.
  unfoldable pub handshake : Action (Machine W) ShimError (Unit {0})
  unfolding next_request_id await
  handshake m =
      let (id, c) = next_request_id m.clangd in
      (send_on os c.stdin (envelope os (some id) (str "initialize") (initialize_params c)) >> (λ m₁.
          initialized
            (await os (λ error. protocol (str "clangd initialize error: " ++ show error)) id
              (from_secs m₁.clangd.initialize_timeout_s) m₁.world)
            m₁))
        (record m { clangd = c })

  abbrev attach : ℕ → Action (Machine W) ShimError (Unit {0})
  attach child m = (
    ok tt,
    record m { clangd = record (m.clangd) { child = some child; stdin = true; stdout = true } },
  )

  unfoldable pub start : Action (Machine W) ShimError (Unit {0})
  unfolding handshake notify_spawned seed_didopen wait_for_warm
  start = do
    cc_dir ← reads (λ m. resolve_compile_commands_dir os m.world m.clangd.project_root)
    log_path ← reads (λ m. ok m.clangd.log_path)
    on_world (os.open_log log_path) io
    reads (λ m. check_index_file os m.world m.clangd.index_mode)
    c ← reads (λ m. ok m.clangd)
    child ← on_world (os.spawn_process c.clangd_bin (clangd_args c cc_dir)) (missing c.clangd_bin)
    attach child
    handshake
    notify_spawned os (str "initialized") (json_object [])
    seed_didopen
    wait_for_warm

  abbrev unless_there :
      Option ℕ → Action (Machine W) ShimError (Unit {0}) → Action (Machine W) ShimError (Unit {0})
  unless_there (some child) action = pure tt
  unless_there none action = action

  unfoldable pub spawn : Action (Machine W) ShimError (Unit {0})
  unfolding start
  spawn m = unless_there m.clangd.child start m

  unfoldable pub ensure_spawned : Action (Machine W) ShimError (Unit {0})
  unfolding spawn
  ensure_spawned m = unless_there m.clangd.child spawn m
