-- ===== src/Tests/CodexStdio.antt =====
-- Runs of codex-stdio/src/run_task.rs: a worktree on a machine whose state is the commits made.
use mcp_tools.Prelude.{
  ℕ, ◌+◌, ◌≡◌, refl, ◌↔◌, true, ◌==◌, none, some, List, [], ◌∷◌, All, Str, str, str_eq,
  split_inclusive, strip_prefix, trim, split, starts_with, join_path, if◌then◌else◌,
}
use mcp_tools.Prelude.Result.{Result, ok, err}
use mcp_tools.Prelude.Action.{Action}
use mcp_tools.CodexStdio.Paths.{components, root_dir, parent_dir, normal, lines, lexical_resolve}
use mcp_tools.CodexStdio.Worktree.{
  Host, Output, validate_diff_paths_under_worktree, git_rev_parse_head, escapes,
}
use mcp_tools.CodexStdio.RunTask.{Args, ChatRequest, ChatResponse, Outcome, dispatch, ok_of}
use mcp_tools.CodexStdio.RunTask.Fences.{IsFenced, validate_diff_paths_under_worktree_iff}
use mcp_tools.CodexStdio.RunTask.Reduced.{LeadsTo, IsReduced, lexical_resolve_iff}
use mcp_tools.CodexStdio.RunTask.NoParent.{IsName, lexical_resolve-no_parent}
use mcp_tools.CodexStdio.RunTask.Guarded.{IsSettled, dispatch-guarded}

abbrev worktree : Str
worktree = str "/tmp/wtpool/a"

abbrev no_output : Output
no_output = record { success = true; stdout = []; stderr = [] }

abbrev head_of : ℕ → Str
head_of commits = if commits == 0 then str "c0\n" else str "c1\n"

abbrev answer : ℕ → List Str → Result Output Str
answer commits [] = err (str "no command")
answer commits (command ∷ args) =
    if str_eq command (str "rev-parse")
    then ok (record no_output { stdout = head_of commits })
    else ok no_output

abbrev host : Host ℕ
host = record {
  env = λ name. none;
  canonicalize = λ w path. if str_eq path worktree then ok worktree else err (str "no such file");
  git = λ w dir args. answer w args;
}

abbrev diff : Str
diff = str "--- /dev/null\n+++ b/src/new.rs\n+fn main() {}\n"

validate_diff_paths_under_worktree_iff_example :
    (validate_diff_paths_under_worktree host 0 diff worktree ≡ ok tt) ↔ (
      (canon : Str) × ((if str_eq worktree worktree then ok worktree else err (str "no such file"))
        ≡ ok canon)
      × All (IsFenced host 0 canon) (lines diff))
validate_diff_paths_under_worktree_iff_example =
    validate_diff_paths_under_worktree_iff host 0 diff worktree

-- A header that climbs out of the worktree is refused.
climbing :
    validate_diff_paths_under_worktree host 0 (str "+++ b/../b/x\n") worktree
    ≡ err (
        escapes
          (str "b/../b/x")
          (root_dir
            ∷ normal (str "tmp")
            ∷ normal (str "wtpool")
            ∷ normal (str "b")
            ∷ normal (str "x")
            ∷ [])
          worktree)
unfolding validate_diff_paths_under_worktree str_eq split_inclusive strip_prefix trim split
    starts_with join_path
climbing = refl

abbrev inner : Str
inner = str "/tmp/wtpool/a/src/../x"

no_parent_left : All IsName (lexical_resolve (components inner))
unfolding lexical_resolve components starts_with split str_eq
no_parent_left =
    lexical_resolve-no_parent inner (str "tmp") (normal (str "wtpool") ∷ normal (str "a") ∷ []) refl
      (normal (str "x") ∷ [], refl)

lexical_resolve_iff_example :
    (lexical_resolve (normal (str "a") ∷ parent_dir ∷ normal (str "b") ∷ [])
      ≡ normal (str "b") ∷ [])
    ↔ (LeadsTo (normal (str "a") ∷ parent_dir ∷ normal (str "b") ∷ []) (normal (str "b") ∷ [])
        × IsReduced (normal (str "b") ∷ []))
lexical_resolve_iff_example =
    lexical_resolve_iff (normal (str "a") ∷ parent_dir ∷ normal (str "b") ∷ [])
      (normal (str "b") ∷ [])

abbrev args : Args
args = record {
  task_packet = str "task";
  worktree_path = worktree;
  model = str "m";
  max_tokens = 10;
}

abbrev response : ChatResponse
response = record {
  id = str "r1";
  model = str "m";
  choices =
      record { message = record { role = str "assistant"; content = diff }; finish_reason = none }
      ∷ [];
  usage = none;
}

-- Codex makes one commit.
abbrev client : ChatRequest → Action ℕ Str ChatResponse
client req w = (ok response, w + 1)

abbrev outcome : Outcome
outcome = record {
  diff = diff;
  commit_sha = some (str "c1");
  committed_by = str "codex";
  log = str "model=m finish_reason=unknown response_id=r1";
  usage = record {
    prompt_tokens = 0;
    completion_tokens = 0;
    total_tokens = 0;
    cached_prompt_tokens = none;
    reasoning_output_tokens = none;
  };
}

dispatch-guarded_example :
    (validate_diff_paths_under_worktree host (dispatch host client args 0).1 diff worktree ≡ ok tt)
    × IsSettled host
        (dispatch host client args 0).1
        (ok_of host (git_rev_parse_head host 0 worktree))
        worktree
        (some (str "c1"), str "codex")
    × ((dispatch host client args 0).1 ≡ 1)
unfolding dispatch str_eq split_inclusive trim strip_prefix split starts_with join_path
dispatch-guarded_example = dispatch-guarded host client args 0 outcome refl
