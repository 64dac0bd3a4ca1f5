-- ===== src/Tests/LspRust.antt =====
-- Runs of lsp-rust/src on a machine that refuses the first requests and answers the later ones.
use mcp_tools.Prelude.{
  ℕ, arith, ◌+◌, ◌≡◌, refl, true, Option, none, some, List, [], ◌∷◌, ltb, Str, str, str_eq,
  if◌then◌else◌,
}
use mcp_tools.Prelude.Decimal.{parse_usize}
use mcp_tools.Prelude.Json.{Json, null, text, nat, get, get_u64}
use mcp_tools.Prelude.Result.{Result, ok}
use mcp_tools.Prelude.Action.{Action}
use mcp_tools.LspCpp.Mcp.Reply.{json_object}
use mcp_tools.LspCpp.Mcp.Replies.{IsAnswer, is_silent}
use mcp_tools.LspShimCore.Framing.{RawResponse, lsp_error_content_modified}
use mcp_tools.LspRust.Client.{Os, Machine, resolve_timeout}
use mcp_tools.LspRust.Answers.{Serde}
use mcp_tools.LspRust.Error.{LspShimError}
use mcp_tools.LspRust.Waits.{await-rounds}
use mcp_tools.LspRust.Session.{await, await_within, request_once, spawn}
use mcp_tools.LspRust.Requests.{request_with_retry, wait_for_indexing, settled_after}
use mcp_tools.LspRust.Mcp.{Format}
use mcp_tools.LspRust.Serve.{handle_message}
use mcp_tools.LspRust.Retries.{Outcome, request_with_retry-Outcome}
use mcp_tools.LspRust.Indexing.{IsSettled, wait_for_indexing-IsSettled}
use mcp_tools.LspRust.Replies.{handle_message-IsAnswer}

-- The time, the id of the last request, and the number of requests.
record World : Type 0 where
  now : ℕ
  id : ℕ
  requests : ℕ

abbrev id_or_zero : Option ℕ → ℕ
id_or_zero none = 0
id_or_zero (some n) = n

abbrev tick : World → World
tick w = record w { now = w.now + 1 }

-- The first two requests are refused.
abbrev answer : World → Json
answer w =
    if ltb w.requests 3
    then json_object ((str "id", nat w.id) ∷ (str "error", null) ∷ [])
    else json_object ((str "id", nat w.id) ∷ [])

abbrev os : Os World
os = record {
  env = λ name. none;
  open_log = λ path w. (ok tt, w);
  spawn_process = λ binary w. (ok (record { process = 7; stdin = true; stdout = true }), w);
  try_wait = λ child w. (ok true, w);
  kill_and_wait = λ child w. w;
  sleep = λ ns w. record w { now = w.now + ns };
  send = λ payload w.
      (ok tt, record w { id = id_or_zero (get_u64 (str "id") payload); requests = w.requests + 1 });
  write = λ bytes w. (ok tt, w);
  flush = λ w. (ok tt, w);
  recv = λ w. (ok (answer w), tick w);
  now_ns = λ w. w.now;
}

-- A message is written as one byte if it is an error.
abbrev bytes_of : Option Json → List ℕ
bytes_of none = []
bytes_of (some e) = 1 ∷ []

abbrev response_of : List ℕ → Result (RawResponse Json) Str
response_of [] = ok (record { result = some (text (str "found")); error = none })
response_of (b ∷ rest) = ok (record {
  result = none;
  error = some (record {
    code = lsp_error_content_modified;
    message = str "content modified";
    details = none;
  });
})

abbrev serde : Serde
serde = record {
  to_vec = λ value. ok (bytes_of (get (str "error") value));
  from_slice = response_of;
  show = λ value. [];
  describe = λ e. [];
}

abbrev version : Str
version = str "0.1.0"

abbrev machine : Machine World
machine = record {
  client = record {
    workspace = str "/p";
    binary = str "rust-analyzer";
    log_path = str "/tmp/lsp-rust.log";
    timeout_s = 3;
    next_id = 1;
    child = some 7;
    stdin = true;
    stdout = true;
  };
  world = record { now = 100; id = 0; requests = 0 };
}

-- The third request is answered, a second later.
third_answers :
    (request_with_retry os serde 1 version (str "textDocument/hover") null machine).0
    ≡ ok (text (str "found"))
unfolding request_with_retry spawn request_once get str_eq
third_answers = refl

request_with_retry-Outcome_example :
    Outcome os serde
      (str "textDocument/hover")
      null
      3
      machine
      (request_with_retry os serde 1 version (str "textDocument/hover") null machine)
unfolding spawn
request_with_retry-Outcome_example =
    request_with_retry-Outcome os serde (str "textDocument/hover") null 1 version machine machine
      refl

wait_for_indexing-IsSettled_example :
    (settled_after 2 ≡ settled_after 2)
    × IsSettled os serde (wait_for_indexing os serde 1 version machine).1
unfolding wait_for_indexing spawn request_once get str_eq
wait_for_indexing-IsSettled_example =
    wait_for_indexing-IsSettled os serde 1 version machine
      (wait_for_indexing os serde 1 version machine).1 (settled_after 2) refl

abbrev request : Json
request = json_object ((str "id", nat 5) ∷ (str "method", text (str "tools/call")) ∷ [])

abbrev format : Format
format = record {
  from_str = λ line. ok request;
  to_string = λ value. ok [];
  to_string_pretty = λ value. [];
}

handle_message-IsAnswer_example :
    IsAnswer
      (is_silent request)
      (nat 5)
      (handle_message os serde 1 version format (str "{}") machine).0
unfolding get str_eq
handle_message-IsAnswer_example =
    handle_message-IsAnswer os serde 1 version format machine (str "{}") request refl

timeouts :
    (resolve_timeout (λ name. some (str "17")) none ≡ 17)
    × (resolve_timeout (λ name. some (str "17")) (some 123) ≡ 123)
    × (resolve_timeout (λ name. none) none ≡ 60)
unfolding resolve_timeout parse_usize
timeouts = (refl, refl, refl)

abbrev keep : Json → Result Json LspShimError
keep value = ok value

abbrev receive : Action World LspShimError Json
receive w = (ok (answer w), tick w)

abbrev start : World
start = record { now = 100; id = 9; requests = 0 }

more_rounds :
    await os serde 9 keep receive 50 start
    ≡ await_within os serde (50 + 2 + 7) 9 keep receive (100 + 50) start
more_rounds = await-rounds os serde 9 keep receive (λ w. omega arith) 50 7 start
