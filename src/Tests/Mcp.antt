-- ===== src/Tests/Mcp.antt =====
-- Runs of lsp-cpp/src/mcp.rs: a machine that only counts nanoseconds, whose clangd finds nothing.
use mcp_tools.Prelude.{
  ℕ, ◌+◌, ◌≡◌, refl, Bool, false, none, some, [], ◌∷◌, arith, Str, str, str_eq, if◌then◌else◌,
}
use mcp_tools.Prelude.Result.{Result, ok, err}
use mcp_tools.Prelude.Action.{Action}
use mcp_tools.Prelude.Json.{Json, null, text, number, get, unwrap_or}
use mcp_tools.Prelude.Int.{pos}
use mcp_tools.LspCpp.Error.{ShimError, IoError}
use mcp_tools.LspCpp.Backend.{LspBackend, IsMonotone}
use mcp_tools.LspCpp.Queue.{QueueState, new, try_acquire}
use mcp_tools.LspCpp.Supervisor.{with_clock, from_secs}
use mcp_tools.LspCpp.Mcp.Reply.{json_object, tools_call}
use mcp_tools.LspCpp.Mcp.Tools.{tool_of, call_workspace_symbol}
use mcp_tools.LspCpp.Mcp.Calls.{Server, Format, call_tool, handle_tools_call, reply_of}
use mcp_tools.LspCpp.Mcp.Serve.{handle_message}
use mcp_tools.LspCpp.Mcp.Replies.{IsAnswer, is_silent, handle_message-answers}
use mcp_tools.LspCpp.Mcp.Guards.{error_kind_of, call_tool-refused}
use mcp_tools.LspCpp.Mcp.Recovery.{IsServed, started, handled, call_tool-recovers, served-idle}

abbrev tick : {A : Type 0} → A → Action ℕ ShimError A
tick a w = (ok a, w + 1)

abbrev child_gone : Action ℕ IoError Bool
child_gone w = (ok false, w + 1)

abbrev machine : LspBackend ℕ
machine = record {
  spawn = tick tt;
  definition = λ file line column. tick [];
  references = λ file line column. tick [];
  hover = λ file line column. tick none;
  workspace_symbol = λ query. tick [];
  shutdown = tick tt;
  build_full_index = λ max_tus. tick (record {
    tus_opened = max_tus;
    skipped_io_errors = 0;
    wall = 7;
    shards_on_disk_after = 0;
    shards_size_bytes = 0;
    cap_fired = false;
  });
  is_alive = child_gone;
  last_exit_status = λ w. none;
  clangd_pid = λ w. none;
  now_ns = λ w. w;
}

machine-IsMonotone : IsMonotone machine
machine-IsMonotone = record {
  spawn = λ w. omega arith;
  definition = λ file line column w. omega arith;
  references = λ file line column w. omega arith;
  hover = λ file line column w. omega arith;
  workspace_symbol = λ query w. omega arith;
  shutdown = λ w. omega arith;
  build_full_index = λ max_tus w. omega arith;
  is_alive = λ w. omega arith;
}

abbrev args : Json
args = json_object ((str "query", text (str "AActor")) ∷ [])

abbrev request : Json
request = json_object (
    (str "id", number (pos 7))
    ∷ (str "method", text tools_call)
    ∷ (
      str "params",
      json_object ((str "name", text (str "workspace_symbol")) ∷ (str "arguments", args) ∷ []),
    )
    ∷ [])

-- JSON with one value.
abbrev read_json : Str → Result Json Str
read_json line = if str_eq line (str "call") then ok request else err (str "expected value")

abbrev format : Format
format = record {
  from_str = read_json;
  to_string = λ value. ok (str "{}");
  to_string_pretty = λ value. str "{}";
  secs_f64 = λ ns. null;
  debug = λ s. s;
  version = str "0.1.0";
}

abbrev empty_queue : QueueState
empty_queue = record { capacity = 1; in_flight = 0 }

abbrev server : Server ℕ
server = record { world = 5; queue = empty_queue; supervisor = with_clock }

abbrev called : Server ℕ
called = (handle_message machine format (str "call") server).1

called-IsServed : IsServed machine format 1 called
unfolding new
called-IsServed = handled (str "call") (started 5 empty_queue refl)

handle_message-answers_example :
    IsAnswer
      (is_silent request)
      (unwrap_or (get (str "id") request) null)
      (handle_message machine format (str "call") server).0
unfolding str_eq
handle_message-answers_example =
    handle_message-answers machine format server (str "call") request refl

-- The queue's only slot is taken.
abbrev busy : Server ℕ
busy = record server { queue = record { capacity = 1; in_flight = 1 } }

abbrev workspace_symbol : Str
workspace_symbol = str "workspace_symbol"

call_tool-refused_example :
    (error_kind_of (call_tool machine format null workspace_symbol args busy).0
      ≡ some (str "queue_depth_exceeded"))
    × ((call_tool machine format null workspace_symbol args busy).1.world ≡ 5)
unfolding str_eq try_acquire
call_tool-refused_example =
    call_tool-refused machine format null workspace_symbol args busy (str "queue_depth_exceeded")
      refl refl

abbrev find_actor : Action ℕ ShimError Json
find_actor = call_workspace_symbol machine format.secs_f64 args

call_tool-recovers_example :
    (call_tool machine format null workspace_symbol args
      (record called { world = from_secs 400 })).0
    ≡ reply_of machine format null (find_actor (from_secs 400 + 1)).0
unfolding str_eq tool_of handle_message get handle_tools_call with_clock call_workspace_symbol
call_tool-recovers_example =
    call_tool-recovers machine format machine-IsMonotone 1 called (from_secs 400) null
      workspace_symbol args find_actor called-IsServed (omega arith) (omega arith) refl refl

after_call_idle : called.queue ≡ empty_queue
after_call_idle = served-idle machine format machine-IsMonotone 1 called called-IsServed
