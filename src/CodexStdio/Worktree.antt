-- ===== src/CodexStdio/Worktree.antt =====
-- codex-stdio/src/run_task.rs: the bounds of the worktree, and what git says of it. A path is its text;
-- what the machine answers is an interface over its state. Errors keep what their messages report.
use mcp_tools.Prelude.{
  ℕ, Bool, false, not, Option, none, some, List, [], ◌∷◌, ◌++◌, if◌then◌else◌, is_empty, length,
  take, Str, str, str_eq, strip_prefix, split, trim, join_path,
}
use mcp_tools.Prelude.Result.{Result, ok, err, map_err, ensure, ◌>>=◌, ◌>>◌}
use mcp_tools.CodexStdio.Paths.{
  Component, components, is_absolute, starts_with_path, lexical_resolve, lines,
}

pub record Output : Type 0 where
  pub success : Bool
  pub stdout : Str
  pub stderr : Str

-- `git` runs in a worktree, with its arguments; what it prints is decoded.
pub record Host (W : Type 0) : Type 0 where
  pub env : Str → Option Str
  pub canonicalize : W → Str → Result Str Str
  pub git : W → Str → List Str → Result Output Str

pub data TaskError : Type 0 where
  missing_argument : Str → TaskError
  empty_packet : TaskError
  not_absolute : Str → TaskError
  not_on_disk : Str → Str → TaskError
  outside_root : Str → Str → Str → TaskError
  not_canonical : Str → Str → TaskError
  escapes : Str → List Component → Str → TaskError
  spawn_failed : Str → TaskError
  git_failed : Str → Str → Str → TaskError
  empty_head : TaskError
  left_dirty : ℕ → List Str → TaskError
  chat_failed : Str → TaskError
  no_choices : TaskError
  unavailable : Str → TaskError

abbrev worktree_root_prefix_default : Str
worktree_root_prefix_default = str "/tmp/wtpool/"

abbrev pub or_text : Option Str → Str → Str
or_text none d = d
or_text (some s) d = s

unfoldable pub worktree_root_prefix : (Str → Option Str) → Str
worktree_root_prefix env =
    or_text (env (str "CODEX_STDIO_WORKTREE_ROOT")) worktree_root_prefix_default

-- The path of a header line of a diff.
abbrev pub or_minus : Option Str → Str → Option Str
or_minus (some rest) line = some rest
or_minus none line = strip_prefix (str "--- ") line

abbrev pub header_of : Str → Option Str
header_of line = or_minus (strip_prefix (str "+++ ") line) line

abbrev pub first_piece : List Str → Str → Str
first_piece [] d = d
first_piece (piece ∷ rest) d = piece

abbrev pub path_field : Str → Str
path_field raw = trim (first_piece (split b'\t' raw) raw)

abbrev pub without_b : Str → Option Str → Str
without_b field (some rest) = rest
without_b field none = or_text (strip_prefix (str "b/") field) field

abbrev pub stripped : Str → Str
stripped field = without_b field (strip_prefix (str "a/") field)

abbrev pub named : Option Str → Option Str
named none = none
named (some raw) = if str_eq (path_field raw) (str "/dev/null") then none else some (path_field raw)

-- The path that a line names, if it is a header that names one.
unfoldable pub named_path : Str → Option Str
named_path line = named (header_of line)

module _ {W : Type 0} (host : Host W) (w : W) where
  unfoldable pub validate_worktree_path : Str → Result Str TaskError
  unfolding components starts_with_path worktree_root_prefix
  validate_worktree_path raw = do
    ensure (is_absolute raw) (not_absolute raw)
    canon ← map_err (not_on_disk raw) (host.canonicalize w raw)
    let prefix = worktree_root_prefix host.env
    ensure (starts_with_path (components canon) (components prefix)) (outside_root raw canon prefix)
    ok canon

  abbrev pub candidate : Str → Str → Str
  candidate worktree field =
      if is_absolute (stripped field) then stripped field else join_path worktree (stripped field)

  abbrev pub resolved_or : Str → Result Str Str → List Component
  resolved_or path (ok canon) = components canon
  resolved_or path (err e) = lexical_resolve (components path)

  -- Where a path of a diff leads.
  unfoldable pub resolve : Str → Str → List Component
  unfolding components lexical_resolve
  resolve worktree field =
      resolved_or (candidate worktree field) (host.canonicalize w (candidate worktree field))

  abbrev pub check_path : Str → Option Str → Result (Unit {0}) TaskError
  check_path worktree none = ok tt
  check_path worktree (some field) =
      ensure (starts_with_path (resolve worktree field) (components worktree))
        (escapes field (resolve worktree field) worktree)

  unfoldable pub check_lines : Str → List Str → Result (Unit {0}) TaskError
  unfolding named_path resolve starts_with_path components
  check_lines worktree [] = ok tt
  check_lines worktree (line ∷ rest) =
      check_path worktree (named_path line) >> check_lines worktree rest

  unfoldable pub validate_diff_paths_under_worktree : Str → Str → Result (Unit {0}) TaskError
  unfolding check_lines lines
  validate_diff_paths_under_worktree diff worktree = do
    worktree_canon ← map_err (not_canonical worktree) (host.canonicalize w worktree)
    check_lines worktree_canon (lines diff)

  abbrev printed : Str → Str → Output → Result Str TaskError
  printed what worktree out =
      if out.success then ok out.stdout else err (git_failed what worktree (trim out.stderr))

  abbrev run_git : Str → List Str → Str → Result Str TaskError
  run_git worktree args what =
      map_err spawn_failed (host.git w worktree args) >>= printed what worktree

  unfoldable pub git_rev_parse_head : Str → Result Str TaskError
  git_rev_parse_head worktree = do
    printed_sha ← run_git worktree (str "rev-parse" ∷ str "HEAD" ∷ []) (str "git rev-parse HEAD")
    ensure (not (is_empty (trim printed_sha))) empty_head
    ok (trim printed_sha)

  unfoldable pub git_status_porcelain : Str → Result Str TaskError
  git_status_porcelain worktree =
      run_git worktree (str "status" ∷ str "--porcelain" ∷ []) (str "git status --porcelain")

  unfoldable pub git_diff_from : Str → Str → Result Str TaskError
  git_diff_from worktree pre_sha =
      run_git worktree (str "diff" ∷ pre_sha ∷ []) (str "git diff " ++ pre_sha)

  -- Whether the head of the worktree moved.
  abbrev pub moved : Option Str → Result Str TaskError → Bool
  moved (some pre) (ok post) = not (str_eq pre post)
  moved _ _ = false

  abbrev ok_of : Result Str TaskError → Option Str
  ok_of (ok sha) = some sha
  ok_of (err e) = none

  abbrev refuse_dirty : Result Str TaskError → Result (Option Str × Str) TaskError
  refuse_dirty (err e) = ok (none, str "none")
  refuse_dirty (ok porcelain) =
      if is_empty (trim porcelain)
      then ok (none, str "none")
      else err (left_dirty (length (lines porcelain)) (take 5 (lines porcelain)))

  unfoldable pub decide_commit_outcome : Option Str → Str → Result (Option Str × Str) TaskError
  unfolding git_rev_parse_head git_status_porcelain lines
  decide_commit_outcome pre_sha worktree =
      let post = git_rev_parse_head worktree in
      if moved pre_sha post
      then ok (ok_of post, str "codex")
      else refuse_dirty (git_status_porcelain worktree)
