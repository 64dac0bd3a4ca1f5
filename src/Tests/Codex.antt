-- ===== src/Tests/Codex.antt =====
-- Runs of codex-stdio/src/codex.rs.
use mcp_tools.Prelude.{
  ℕ, ◌≡◌, refl, false, none, some, [], ◌∷◌, List, Str, str, str_eq, split_inclusive, trim,
  starts_with, if◌then◌else◌, any,
}
use mcp_tools.Prelude.Json.{Json, boolean, text, get}
use mcp_tools.Prelude.Result.{Result, ok, err}
use mcp_tools.LspCpp.Mcp.Reply.{json_object}
use mcp_tools.CodexStdio.Paths.{lines}
use mcp_tools.CodexStdio.RunTask.{ChatMessage}
use mcp_tools.CodexStdio.Health.{run}
use mcp_tools.CodexStdio.Health.Agreement.{Agrees, run-for_worktree}
use mcp_tools.CodexStdio.Codex.{
  Shell, locate_codex_binary, for_worktree, build_codex_exec_args, prompt_from,
  sandbox_bypass_from_env, bypass_flag,
}
use mcp_tools.CodexStdio.Codex.Events.{parse_codex_jsonl, extract_last_agent_message, event_in}
use mcp_tools.CodexStdio.Codex.LastEvents.{
  last_of, thread_in, usage_in, message_in, events, parse_codex_jsonl-last,
}
use mcp_tools.CodexStdio.Codex.Sandbox.{has_arg, build_codex_exec_args-sandbox}

-- A stream of two threads and a warning.
abbrev stdout : Str
stdout = str "{a}\nwarning: slow\n{b}\n"

abbrev thread : Str → Json
thread id =
    json_object ((str "type", text (str "thread.started")) ∷ (str "thread_id", text id) ∷ [])

abbrev from_str : Str → Result Json Str
from_str line = if str_eq line (str "{a}") then ok (thread (str "t1")) else ok (thread (str "t2"))

last_thread : (parse_codex_jsonl from_str stdout).thread_id ≡ some (str "t2")
unfolding parse_codex_jsonl event_in get str_eq split_inclusive trim starts_with
last_thread = refl

parse_codex_jsonl-last_example :
    ((parse_codex_jsonl from_str stdout).thread_id
      ≡ last_of thread_in (events from_str (lines stdout)))
    × ((parse_codex_jsonl from_str stdout).usage
        ≡ last_of usage_in (events from_str (lines stdout)))
    × (extract_last_agent_message from_str stdout
        ≡ last_of message_in (events from_str (lines stdout)))
parse_codex_jsonl-last_example = parse_codex_jsonl-last from_str stdout

safe_default :
    has_arg bypass_flag (
      build_codex_exec_args
        (str "/tmp/wtpool/a")
        (str "/tmp/o.txt")
        (str "gpt-5.3-codex")
        none
        (sandbox_bypass_from_env (λ name. some (str "no"))))
    ≡ false
unfolding sandbox_bypass_from_env str_eq trim any
safe_default =
    build_codex_exec_args-sandbox (str "/tmp/wtpool/a") (str "/tmp/o.txt") (str "gpt-5.3-codex")
      none false refl

two_messages : List ChatMessage
two_messages =
    record { role = str "system"; content = str "rules" }
    ∷ record { role = str "user"; content = str "task" }
    ∷ []

prompt : prompt_from [] two_messages ≡ str "[system]\nrules\n\ntask"
unfolding prompt_from str_eq two_messages
prompt = refl

-- No fixture is named, and no program is where it is looked for.
abbrev absent : {A : Type 0} → Result A Str
absent = err (str "not found")

abbrev bare : Shell ℕ
bare = record {
  env = λ name. none;
  temp_dir = str "/tmp";
  process_id = 1;
  metadata = λ w path. none;
  which_codex = λ w. absent;
  spawn = λ binary args w. (absent, w);
  write_stdin = λ child prompt w. (absent, w);
  wait_with_output = λ child w. (absent, w);
  read_to_string = λ w path. absent;
  remove_file = λ path w. w;
  extension = λ path. none;
  from_str = λ line. absent;
  response_from_str = λ body. absent;
}

run-for_worktree_example : Agrees (for_worktree bare (str "/tmp/wtpool/a") 0) (run bare 2 0)
run-for_worktree_example = run-for_worktree bare (str "/tmp/wtpool/a") 0 2

unavailable : get (str "available") (run bare 2 0) ≡ some (boolean false)
unfolding run get str_eq locate_codex_binary
unavailable = refl
