-- ===== src/Wtpool/Merge/Host.antt =====
-- What wtpool/src/merge.rs asks of the machine: the `git` command, the environment, files, and the
-- script that reads verdicts. The state of the model is the machine's with the `git` commands that
-- were run so far, the latest one first.
pub mod Gates
pub mod Rebase
pub mod Orchestration
use mcp_tools.Prelude.{
  ℕ, Bool, true, false, Option, none, some, List, [], ◌∷◌, ◌++◌, ◌==◌, if◌then◌else◌, is_empty, Str,
  str, str_eq, trim, split,
}
use mcp_tools.Prelude.Result.{Result, ok, err, map_err}
use mcp_tools.Prelude.Action.{Action, behind, ◌>>=◌, ◌>>◌, reads}
use mcp_tools.Wtpool.Merge.{MergeError, command_failed}

-- The exit code is read only to see whether it is 0, so a signal, -1 in the code, is any other number.
pub record GitOutput : Type 0 where
  pub status : ℕ
  pub stdout : Str
  pub stderr : Str

-- What the verdict script's JSON holds, as far as this module reads it.
pub record Verdict : Type 0 where
  pub tip : Option Str
  pub lease_compliance : Option Str

pub record Host (W : Type 0) : Type 0 where
  -- The last argument but one says whether `ALLOW_MAIN_COMMIT=1` is set.
  pub git : Bool → Str → List Str → W → Result GitOutput Str × W
  pub env : Str → Option Str
  pub canonicalize : Str → W → Result (List Str) Str
  pub is_symlink : Str → W → Bool
  pub exists : Str → W → Bool
  -- The script that reads a verdict file. It is taken to change nothing, and is not among the `git`
  -- commands that are recorded.
  pub run_script : Str → Str → W → Result GitOutput Str
  pub parse_verdict : Str → Result Verdict Str
  pub read_to_string : Str → W → Result Str Str
  pub write_file : Str → Str → W → Result (Unit {0}) Str × W

pub record Command : Type 0 where
  pub allow_main_commit : Bool
  pub dir : Str
  pub args : List Str

pub record State (W : Type 0) : Type 0 where
  pub world : W
  pub ran : List Command

abbrev pub Run : Type 0 → Type 0 → Type 0
Run W A = Action (State W) MergeError A

abbrev pub success : GitOutput → Bool
success out = out.status == 0

abbrev keep_lines : List Str → List Str
keep_lines [] = []
keep_lines (l ∷ ls) = let rest = keep_lines ls in if is_empty (trim l) then rest else trim l ∷ rest

-- `lines().map(str::trim).filter(|l| !l.is_empty())`
unfoldable pub trimmed_lines : Str → List Str
trimmed_lines s = keep_lines (split 10 s)

module _ {W : Type 0} (host : Host W) where
  unfoldable pub git_as : Bool → Str → List Str → Run W GitOutput
  git_as allow dir args s =
      let (answer, world) = host.git allow dir args s.world in
      (
        map_err (command_failed dir args) answer,
        record {
          world = world;
          ran = record { allow_main_commit = allow; dir = dir; args = args } ∷ s.ran;
        },
      )

  abbrev pub git : Str → List Str → Run W GitOutput
  git = git_as false

  abbrev pub checked : Str → List Str → GitOutput → Result Str MergeError
  checked dir args out =
      if success out then ok out.stdout else err (command_failed dir args out.stderr)

  -- A command that has to succeed, for what it writes.
  unfoldable pub git_output : Str → List Str → Run W Str
  git_output dir args = do out ← git dir args; reads (λ s. checked dir args out)

  unfoldable pub head_sha : Str → Run W Str
  head_sha repo = do
    out ← git_output repo (str "rev-parse" ∷ str "HEAD" ∷ [])
    reads (λ s. ok (trim out))

  unfoldable pub current_branch : Str → Run W Str
  current_branch repo = do
    out ← git_output repo (str "rev-parse" ∷ str "--abbrev-ref" ∷ str "HEAD" ∷ [])
    reads (λ s. ok (trim out))

  unfoldable pub branch_already_merged : Str → Str → Run W Bool
  branch_already_merged main_repo branch_tip = do
    out ← git main_repo (str "merge-base" ∷ str "--is-ancestor" ∷ branch_tip ∷ str "main" ∷ [])
    reads (λ s. ok (success out))

  unfoldable pub rev_parse_tree : Str → Str → Run W Str
  rev_parse_tree repo sha = do
    out ← git_output repo (str "rev-parse" ∷ (sha ++ str "^{tree}") ∷ [])
    reads (λ s. ok (trim out))

  unfoldable pub branch_changed_paths : Str → Run W (List Str)
  branch_changed_paths worktree = do
    out ← git_output worktree (str "diff" ∷ str "main...HEAD" ∷ str "--name-only" ∷ [])
    reads (λ s. ok (trimmed_lines out))
