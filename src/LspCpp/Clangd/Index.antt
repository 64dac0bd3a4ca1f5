-- ===== src/LspCpp/Clangd/Index.antt =====
-- lsp-cpp/src/clangd.rs: the list of translation units, and `build_full_index`, which opens them in
-- clangd batch by batch. The lines that go to the shim's log are left out.
use mcp_tools.Prelude.{
  ℕ, zero, suc, ◌+◌, ◌-◌, min, Bool, true, false, List, [], ◌∷◌, ◌++◌, leb, ◌==◌, length, take,
  drop, if◌then◌else◌, Str, str, join_path,
}
use mcp_tools.Prelude.Json.{Json, text, as_array}
use mcp_tools.Prelude.Result.{Result, ok, err, map_err, ok_or}
use mcp_tools.Prelude.Action.{Action, ◌>>=◌, ◌>>◌, reads, pure}
use mcp_tools.LspCpp.Error.{ShimError, IoError, protocol, io, json}
use mcp_tools.LspCpp.Backend.{BuildFullIndexReport}
use mcp_tools.LspCpp.Supervisor.{from_secs}
use mcp_tools.LspCpp.Mcp.Reply.{json_object}
use mcp_tools.LspCpp.Clangd.{Os, Machine, IndexMode, full}
use mcp_tools.LspCpp.Clangd.Shards.{DirEntry, count_shards, sum_shard_bytes, distinct_files}
use mcp_tools.LspCpp.Clangd.Launch.{pick_compile_commands_path}
use mcp_tools.LspCpp.Clangd.Request.{notify_spawned}
use mcp_tools.LspCpp.Clangd.Spawn.{ensure_spawned, open_params}

abbrev build_full_index_quiescence_secs : ℕ
build_full_index_quiescence_secs = 20

abbrev build_full_index_max_drain_secs : ℕ
build_full_index_max_drain_secs = 600

abbrev pub build_full_index_batch : ℕ
build_full_index_batch = 32

-- The counts of a run, and the documents that are open.
pub record Progress : Type 0 where
  pub tus_opened : ℕ
  pub skipped_io_errors : ℕ
  pub open_uris : List Str

-- Reading JSON, a directory, and whether the child's output waits to be read.
pub record Disk (W : Type 0) : Type 0 where
  pub read : W → Str → Result (List ℕ) IoError
  pub from_slice : List ℕ → Result Json Str
  pub read_dir : W → Str → Result (List DirEntry) IoError
  pub output_ready : W → Bool

abbrev pub needs_stdin : Bool → Result (Unit {0}) ShimError
needs_stdin true = ok tt
needs_stdin false = err (protocol (str "clangd stdin not initialised"))

module _ {W : Type 0} (os : Os W) (disk : Disk W) where
  unfoldable pub read_compile_commands : Str → Action (Machine W) ShimError (List Str)
  read_compile_commands path = do
    bytes ← reads (λ (m : Machine W). map_err io (disk.read m.world path))
    value ← reads (λ m. map_err json (disk.from_slice bytes))
    arr ← reads (λ m.
        ok_or (as_array value)
          (protocol (str "compile_commands at " ++ path ++ str " is not a JSON array")))
    pure (distinct_files [] arr)

  -- What a wait for output reads: at most so many messages, until there is none or an error.
  abbrev drained : (W → W) → Result Json ShimError × W → W
  drained rest (ok message, w) = rest w
  drained rest (err e, w) = w

  unfoldable pub drain_within : ℕ → W → W
  drain_within zero w = w
  drain_within (suc rounds) w =
      if disk.output_ready w then drained (drain_within rounds) (os.recv w) else w

  unfoldable pub drain_pending_stdout : Machine W → Machine W
  unfolding drain_within
  drain_pending_stdout m =
      if m.clangd.stdout then record m { world = drain_within 1024 m.world } else m

  abbrev close_params : Str → Json
  close_params uri =
      json_object ((str "textDocument", json_object ((str "uri", text uri) ∷ [])) ∷ [])

  -- Errors are ignored when a document is closed.
  abbrev pub close_all : List Str → Machine W → Machine W
  close_all [] m = m
  close_all (uri ∷ rest) m =
      close_all rest (notify_spawned os (str "textDocument/didClose") (close_params uri) m).1

  abbrev pub uri_of : Str → Str
  uri_of path = str "file://" ++ path

  abbrev opened : Str → Progress → Progress
  opened path p = record p {
    tus_opened = p.tus_opened + 1;
    open_uris = p.open_uris ++ uri_of path ∷ [];
  }

  abbrev skipped : Progress → Progress
  skipped p = record p { skipped_io_errors = p.skipped_io_errors + 1 }

  unfoldable pub open_one :
      Str → Result Str IoError → Progress → Action (Machine W) ShimError Progress
  unfolding notify_spawned
  open_one path (err e) p = pure (skipped p)
  open_one path (ok contents) p = do
    notify_spawned os (str "textDocument/didOpen") (open_params (uri_of path) contents)
    pure (opened path p)

  unfoldable pub open_chunk : List Str → Progress → Action (Machine W) ShimError Progress
  unfolding open_one
  open_chunk [] p = pure p
  open_chunk (path ∷ rest) p = do
    read ← reads (λ (m : Machine W). ok (os.read_to_string m.world path))
    p₁ ← open_one path read p
    open_chunk rest p₁

  abbrev pub require_stdin : Action (Machine W) ShimError (Unit {0})
  require_stdin = reads (λ m. needs_stdin m.clangd.stdin)

  abbrev pub close_open : Progress → Action (Machine W) ShimError Progress
  close_open p m = (ok (record p { open_uris = [] }), close_all p.open_uris m)

  abbrev drain : Action (Machine W) ShimError (Unit {0})
  drain m = (ok tt, drain_pending_stdout m)

  -- One batch: the documents of the one before are closed, and its own opened.
  unfoldable pub open_batch : List Str → Progress → Action (Machine W) ShimError Progress
  unfolding open_chunk drain_pending_stdout
  open_batch chunk p = do require_stdin; p₁ ← close_open p; p₂ ← open_chunk chunk p₁; drain; pure p₂

  -- `entries.chunks(32)`, in so many rounds at most; a round takes an entry at least.
  unfoldable pub open_batches : ℕ → List Str → Progress → Action (Machine W) ShimError Progress
  unfolding open_batch
  open_batches zero entries p = pure p
  open_batches (suc rounds) [] p = pure p
  open_batches (suc rounds) (entry ∷ rest) p = do
    p₁ ← open_batch (take build_full_index_batch (entry ∷ rest)) p
    open_batches rounds (drop build_full_index_batch (entry ∷ rest)) p₁

  -- The wait until the number of shards stands still for 20 s, or 600 s are over; 2 s pass in a round.
  unfoldable pub settle_within : ℕ → Str → ℕ → ℕ → ℕ → Machine W → Bool × Machine W
  unfolding drain_pending_stdout count_shards
  settle_within zero index_dir drain_started last_count last_change m = (false, m)
  settle_within (suc rounds) index_dir drain_started last_count last_change m =
      let m₁ = drain_pending_stdout (record m { world = os.sleep (from_secs 2) m.world }) in
      let now = os.now_ns m₁.world in
      let now_count = count_shards (disk.read_dir m₁.world index_dir) in
      let change = if now_count == last_count then last_change else now in
      let rest = settle_within rounds index_dir drain_started now_count change m₁ in
      if leb (from_secs build_full_index_quiescence_secs) (now - change)
      then (false, m₁)
      else if leb (from_secs build_full_index_max_drain_secs) (now - drain_started)
      then (true, m₁)
      else rest

  abbrev pub settle : Str → Action (Machine W) ShimError Bool
  settle index_dir m =
      let now = os.now_ns m.world in
      let (cap_fired, m₁) =
        settle_within 302 index_dir now (count_shards (disk.read_dir m.world index_dir)) now m in
      (ok cap_fired, m₁)

  abbrev pub fresh : Progress
  fresh = record { tus_opened = 0; skipped_io_errors = 0; open_uris = [] }

  abbrev pub refuse_full : IndexMode → Result (Unit {0}) ShimError
  refuse_full (full index_file) = err (
      protocol (
        str
          "build_full_index requires --background-index, but the shim was launched in IndexMode::Full (read-only against a pre-built index file). Restart with LSP_CPP_INDEX_MODE=narrow or hybrid."))
  refuse_full _ = ok tt

  abbrev report_of : ℕ → Str → Progress → Bool → Machine W → BuildFullIndexReport
  report_of started index_dir p cap_fired m = record {
    tus_opened = p.tus_opened;
    skipped_io_errors = p.skipped_io_errors;
    wall = os.now_ns m.world - started;
    shards_on_disk_after = count_shards (disk.read_dir m.world index_dir);
    shards_size_bytes = sum_shard_bytes (disk.read_dir m.world index_dir);
    cap_fired = cap_fired;
  }

  module _ (show : Json → Str) (process_id : ℕ) where
    unfoldable pub build_full_index : ℕ → Action (Machine W) ShimError BuildFullIndexReport
    unfolding ensure_spawned read_compile_commands open_batches settle_within
    build_full_index max_tus = do
      reads (λ (m : Machine W). refuse_full m.clangd.index_mode)
      ensure_spawned os show process_id
      started ← reads (λ (m : Machine W). ok (os.now_ns m.world))
      root ← reads (λ (m : Machine W). ok m.clangd.project_root)
      cdb_path ← reads (λ (m : Machine W). pick_compile_commands_path os m.world root)
      entries ← read_compile_commands cdb_path
      p ← open_batches (length entries) (take (min max_tus (length entries)) entries) fresh
      require_stdin
      p₁ ← close_open p
      cap_fired ← settle (join_path root (str ".cache/clangd/index"))
      reads (λ (m : Machine W).
          ok (report_of started (join_path root (str ".cache/clangd/index")) p₁ cap_fired m))
