-- ===== src/CodexStdio/Codex.antt =====
-- codex-stdio/src/codex.rs: the client that runs `codex exec`, the one that replays a recording, and the
-- choice between them. The answer of a client goes to run_task.rs.
pub mod Events
pub mod LastEvents
pub mod Sandbox
use mcp_tools.Prelude.{
  ℕ, ◌+◌, ◌/◌, ◌%◌, Bool, true, false, not, ◌&&◌, ◌||◌, Option, none, some, List, [], ◌∷◌, ◌++◌,
  map, leb, ◌==◌, if◌then◌else◌, is_empty, Str, str, str_eq, trim, join_path,
}
use mcp_tools.Prelude.Decimal.{decimal}
use mcp_tools.Prelude.Int.{ℤ, negsuc}
use mcp_tools.Prelude.Signed.{decimal_ℤ}
use mcp_tools.Prelude.Json.{Json, unwrap_or}
use mcp_tools.Prelude.Result.{Result, ok, err, map_err, ensure}
use mcp_tools.Prelude.Action.{Action, ◌>>=◌, ◌>>◌, reads, pure}
use mcp_tools.CodexStdio.RunTask.{ChatMessage, ChatRequest, ChatResponse, Choice}
use mcp_tools.CodexStdio.Codex.Events.{
  ParsedCodexEvents, parse_codex_jsonl, extract_last_agent_message,
}

-- A process that has ended, with what it printed, decoded.
pub record Finished : Type 0 where
  pub success : Bool
  pub code : Option ℤ
  pub stdout : Str
  pub stderr : Str

-- What the operating system and serde do for the clients. `metadata` is whether a path is a file, with
-- its permission bits; `extension` is `Path::extension`.
pub record Shell (W : Type 0) : Type 0 where
  pub env : Str → Option Str
  pub temp_dir : Str
  pub process_id : ℕ
  pub metadata : W → Str → Option (Bool × ℕ)
  pub which_codex : W → Result Finished Str
  pub spawn : Str → List Str → Action W Str ℕ
  pub write_stdin : ℕ → Str → Action W Str (Unit {0})
  pub wait_with_output : ℕ → Action W Str Finished
  pub read_to_string : W → Str → Result Str Str
  pub remove_file : Str → W → W
  pub extension : Str → Option Str
  pub from_str : Str → Result Json Str
  pub response_from_str : Str → Result ChatResponse Str

abbrev to_ascii_lowercase : Str → Str
to_ascii_lowercase = map (λ c. if leb b'A' c && leb c b'Z' then c + 32 else c)

abbrev is_truthy : Option Str → Bool
is_truthy none = false
is_truthy (some v) =
    let lc = to_ascii_lowercase (trim v) in str_eq lc (str "1") || str_eq lc (str "true")

unfoldable pub sandbox_bypass_from_env : (Str → Option Str) → Bool
sandbox_bypass_from_env env = is_truthy (env (str "CODEX_STDIO_SANDBOX_BYPASS"))

abbrev pub bypass_flag : Str
bypass_flag = str "--dangerously-bypass-approvals-and-sandbox"

abbrev sandbox_args : Bool → List Str
sandbox_args true = bypass_flag ∷ []
sandbox_args false = str "--sandbox" ∷ str "workspace-write" ∷ []

abbrev max_tokens_args : Option ℕ → List Str
max_tokens_args none = []
max_tokens_args (some max) = str "-c" ∷ (str "model_max_output_tokens=" ++ decimal max) ∷ []

unfoldable pub build_codex_exec_args : Str → Str → Str → Option ℕ → Bool → List Str
build_codex_exec_args worktree_path out_path model max_tokens bypass_sandbox =
    (str "exec" ∷ str "--cd" ∷ worktree_path ∷ [])
    ++ (sandbox_args bypass_sandbox
        ++ ((str "--skip-git-repo-check"
              ∷ str "--output-last-message"
              ∷ out_path
              ∷ str "--color"
              ∷ str "never"
              ∷ str "--json"
              ∷ str "-m"
              ∷ model
              ∷ [])
            ++ (max_tokens_args max_tokens ++ (str "-" ∷ []))))

abbrev separator : Str → Str
separator [] = []
separator (c ∷ s) = str "\n\n"

abbrev role_line : Str → Str
role_line role = if str_eq role (str "user") then [] else str "[" ++ role ++ str "]\n"

-- The messages behind the prompt so far.
unfoldable pub prompt_from : Str → List ChatMessage → Str
prompt_from prompt [] = prompt
prompt_from prompt (m ∷ rest) =
    prompt_from (prompt ++ separator prompt ++ role_line m.role ++ m.content) rest

abbrev exit_code : Option ℤ → ℤ
exit_code code = unwrap_or code (negsuc 0)

-- The answer of the assistant, as both clients make it.
abbrev answer_of : Str → Str → Str → ParsedCodexEvents → ChatResponse
answer_of fallback_id model content parsed = record {
  id = unwrap_or parsed.thread_id fallback_id;
  model = model;
  choices =
      record {
        message = record { role = str "assistant"; content = content };
        finish_reason = some (str "stop");
      }
      ∷ [];
  usage = parsed.usage;
}

abbrev is_jsonl : Option Str → Bool
is_jsonl none = false
is_jsonl (some e) = str_eq (to_ascii_lowercase e) (str "jsonl")

-- `mode & 0o111 != 0`
abbrev has_execute_bit : ℕ → Bool
has_execute_bit mode = not ((mode % 2 == 0) && (mode / 8 % 2 == 0) && (mode / 64 % 2 == 0))

abbrev is_executable_file : Option (Bool × ℕ) → Bool
is_executable_file none = false
is_executable_file (some (is_file, mode)) = is_file && has_execute_bit mode

module _ {W : Type 0} (shell : Shell W) where
  -- An action of the shell, with what its error is called.
  abbrev named : {A : Type 0} → Str → Action W Str A → Action W Str A
  named name action w =
      let (result, w₁) = action w in (map_err (λ e. name ++ str ": " ++ e) result, w₁)

  abbrev remove : Str → Action W Str (Unit {0})
  remove path w = (ok tt, shell.remove_file path w)

  abbrev fail_unless_success : Finished → Str → Action W Str (Unit {0})
  fail_unless_success output out_path =
      if output.success
      then pure tt
      else remove out_path
        >> reads (λ (w : W). err (
            str "codex exec failed (exit "
            ++ decimal_ℤ (exit_code output.code)
            ++ str "): "
            ++ trim output.stderr))

  -- `CodexExecClient::chat`
  unfoldable pub exec_chat : Str → Str → ChatRequest → Action W Str ChatResponse
  unfolding build_codex_exec_args prompt_from sandbox_bypass_from_env parse_codex_jsonl
  exec_chat binary_path worktree_path req = do
    out_path ← reads (λ (w : W). ok (
        join_path shell.temp_dir
          (str "codex-stdio-out-" ++ decimal shell.process_id ++ str ".txt")))
    child ← named (str "spawn codex exec") (
        shell.spawn binary_path (
          build_codex_exec_args worktree_path out_path req.model req.max_tokens
            (sandbox_bypass_from_env shell.env)))
    named (str "write codex stdin") (shell.write_stdin child (prompt_from [] req.messages))
    output ← named (str "wait codex exec") (shell.wait_with_output child)
    fail_unless_success output out_path
    final_message ←
        named (str "read codex output") (reads (λ (w : W). shell.read_to_string w out_path))
    remove out_path
    pure (
        answer_of (str "codex-exec-" ++ decimal shell.process_id) req.model final_message
          (parse_codex_jsonl shell.from_str output.stdout))

  abbrev read_fixture : W → Str → Result Str Str
  read_fixture w path =
      map_err (λ e. str "read replay fixture " ++ path ++ str ": " ++ e)
        (shell.read_to_string w path)

  unfoldable pub replay_jsonl : Str → Action W Str ChatResponse
  unfolding parse_codex_jsonl extract_last_agent_message
  replay_jsonl fixture_path = do
    body ← reads (λ (w : W). read_fixture w fixture_path)
    pure (
        answer_of (str "codex-replay-no-thread") []
          (unwrap_or (extract_last_agent_message shell.from_str body) [])
          (parse_codex_jsonl shell.from_str body))

  -- `ReplayClient::chat`
  unfoldable pub replay_chat : Str → ChatRequest → Action W Str ChatResponse
  unfolding replay_jsonl
  replay_chat fixture_path req =
      if is_jsonl (shell.extension fixture_path) then replay_jsonl fixture_path else (do
        body ← reads (λ (w : W). read_fixture w fixture_path)
        reads (λ (w : W).
            map_err (λ e. str "parse replay fixture " ++ fixture_path ++ str ": " ++ e)
              (shell.response_from_str body)))

  unfoldable pub is_executable : W → Str → Bool
  is_executable w path = is_executable_file (shell.metadata w path)

  abbrev on_path : W → Str → Option Str
  on_path w path = if not (is_empty path) && is_executable w path then some path else none

  abbrev found_by_which : W → Result Finished Str → Option Str
  found_by_which w (err e) = none
  found_by_which w (ok out) = if out.success then on_path w (trim out.stdout) else none

  abbrev canonical : Str
  canonical = str "/usr/bin/codex"

  abbrev or_canonical : W → Option Str → Result Str Str
  or_canonical w (some path) = ok path
  or_canonical w none =
      if is_executable w canonical
      then ok canonical
      else err
          (str "codex CLI not found (set CODEX_STDIO_BIN or install via npm i -g @openai/codex)")

  abbrev custom_or_found : W → Option Str → Result Str Str
  custom_or_found w (some custom) =
      if is_executable w custom
      then ok custom
      else err (str "CODEX_STDIO_BIN points to `" ++ custom ++ str "` which is not executable")
  custom_or_found w none = or_canonical w (found_by_which w (shell.which_codex w))

  unfoldable pub locate_codex_binary : W → Result Str Str
  unfolding is_executable
  locate_codex_binary w = custom_or_found w (shell.env (str "CODEX_STDIO_BIN"))

  abbrev pub exec_client :
      Str → Result Str Str → Result (ChatRequest → Action W Str ChatResponse) Str
  exec_client worktree_path (err e) = err e
  exec_client worktree_path (ok binary) = ok (exec_chat binary worktree_path)

  abbrev pub client_for :
      Str → W → Option Str → Result (ChatRequest → Action W Str ChatResponse) Str
  client_for worktree_path w none = exec_client worktree_path (locate_codex_binary w)
  client_for worktree_path w (some fixture) =
      if is_empty fixture
      then exec_client worktree_path (locate_codex_binary w)
      else ok (replay_chat fixture)

  -- The client for a worktree, which `run` of run_task.rs asks.
  unfoldable pub for_worktree : Str → W → Result (ChatRequest → Action W Str ChatResponse) Str
  unfolding exec_chat replay_chat locate_codex_binary
  for_worktree worktree_path w =
      client_for worktree_path w (shell.env (str "CODEX_STDIO_REPLAY_FIXTURE"))
