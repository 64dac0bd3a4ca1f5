-- ===== src/Tests/Clangd.antt =====
-- Runs of lsp-cpp/src/clangd.rs on a machine whose state is the time, with one list of two files.
use mcp_tools.Prelude.{
  ℕ, ◌+◌, ◌≡◌, refl, min, true, false, none, some, List, [], ◌∷◌, arith, Str, str, str_eq,
  join_path, any, length, if◌then◌else◌,
}
use mcp_tools.Prelude.Int.{pos}
use mcp_tools.Prelude.Json.{Json, null, text, get, array, items_of}
use mcp_tools.Prelude.Result.{ok, err}
use mcp_tools.LspCpp.Error.{ShimError, IoError, ErrorKind, protocol}
use mcp_tools.LspCpp.Backend.{BuildFullIndexReport}
use mcp_tools.LspCpp.Mcp.Reply.{json_object}
use mcp_tools.LspCpp.Mcp.Outcome.{exit_status_to_reason}
use mcp_tools.LspCpp.Clangd.{Os, Machine, ExitStatus, format_exit_status, narrow}
use mcp_tools.LspCpp.Clangd.Launch.{pick_compile_commands_path}
use mcp_tools.LspCpp.Clangd.Request.{await, await_within}
use mcp_tools.LspCpp.Clangd.Spawn.{ensure_spawned}
use mcp_tools.LspCpp.Clangd.Shards.{sum_shard_bytes}
use mcp_tools.LspCpp.Clangd.Index.{Disk, read_compile_commands, build_full_index}
use mcp_tools.LspCpp.Clangd.Counts.{build_full_index-accounts}
use mcp_tools.LspCpp.Clangd.Waits.{await-rounds}
use mcp_tools.LspCpp.Clangd.StatusText.{reason_of, exit_status_to_reason-format_exit_status}

abbrev absent : IoError
absent = record { kind = ErrorKind.not_found; message = str "not found" }

abbrev os : Os ℕ
os = record {
  env = λ name. none;
  available_parallelism = some 8;
  exists = λ w path. true;
  read_to_string = λ w path. if str_eq path (str "/b.cpp") then err absent else ok (str "int a;");
  open_log = λ path w. (ok tt, w + 1);
  spawn_process = λ bin args w. (ok 7, w + 1);
  try_wait = λ child w. (ok none, w + 1);
  kill_and_wait = λ child w. w + 1;
  sleep = λ ns w. w + ns + 30_000_000_000;
  send = λ payload w. (ok tt, w + 1);
  recv = λ w. (ok null, w + 1);
  now_ns = λ w. w;
}

abbrev file : Str → Json
file path = json_object ((str "file", text path) ∷ [])

abbrev disk : Disk ℕ
disk = record {
  read = λ w path. ok [];
  from_slice = λ bytes.
      ok (array (items_of (file (str "/a.cpp") ∷ file (str "/b.cpp") ∷ file (str "/a.cpp") ∷ [])));
  read_dir = λ w path. ok [];
  output_ready = λ w. false;
}

abbrev machine : Machine ℕ
machine = record {
  clangd = record {
    project_root = str "/p";
    clangd_bin = str "clangd-19";
    log_path = str "/tmp/clangd.log";
    jobs = 4;
    request_timeout_s = 60;
    initialize_timeout_s = 10;
    index_mode = narrow;
    child = some 7;
    stdin = true;
    stdout = true;
    next_id = pos 1;
    last_exit_status = none;
  };
  world = 100;
}

abbrev show : Json → Str
show value = []

abbrev two_files : List Str
two_files = str "/a.cpp" ∷ str "/b.cpp" ∷ []

abbrev report : BuildFullIndexReport
report = record {
  tus_opened = 1;
  skipped_io_errors = 1;
  wall = 32_000_000_002;
  shards_on_disk_after = 0;
  shards_size_bytes = 0;
  cap_fired = false;
}

build_full_index-accounts_example : 1 + 1 ≡ min 10 (length two_files)
unfolding build_full_index ensure_spawned pick_compile_commands_path read_compile_commands str_eq
    join_path get any sum_shard_bytes
build_full_index-accounts_example =
    build_full_index-accounts os disk show 1 10 machine (str "/p/compile_commands.json") two_files
      report refl refl refl refl

abbrev protocol_of : Json → ShimError
protocol_of error = protocol (show error)

abbrev show_text : Str → Str
show_text s = s

more_rounds :
    await os protocol_of (pos 3) 50 100
    ≡ await_within os (50 + 2 + 7) protocol_of (pos 3) (100 + 50) 100
more_rounds = await-rounds os protocol_of (pos 3) 50 7 100 (λ w. omega arith)

abbrev crashed : ExitStatus
crashed = record { code = none; signal = some (pos 11) }

exit_status_to_reason-format_exit_status_example :
    exit_status_to_reason show_text (some (format_exit_status crashed)) ≡ reason_of crashed
exit_status_to_reason-format_exit_status_example =
    exit_status_to_reason-format_exit_status show_text crashed (tt, omega arith)
