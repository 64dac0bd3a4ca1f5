-- ===== src/Wtpool/Merge/Host/Orchestration.antt =====
-- `merge_to_main` of wtpool/src/merge.rs, with `render_command` of wtpool/src/git_exec.rs.
use mcp_tools.Prelude.{
  ℕ, Bool, true, false, ◌||◌, Option, none, some, List, [], ◌∷◌, ◌++◌, ◌==◌, if◌then◌else◌, all,
  take, Str, str, str_eq, contains, is_ascii_alphanumeric,
}
use mcp_tools.Prelude.Result.{Result, ok, err}
use mcp_tools.Prelude.Action.{◌>>=◌, ◌>>◌, reads, pure}
use mcp_tools.Wtpool.CumulativeMd.{ConflictKind}
use mcp_tools.Wtpool.Merge.{
  MergeRequest, MergeStatus, merged, rebase_conflict, hook_blocked, already_merged, dry_run,
  MergeError, wrong_branch, merge_tip_drift, validate_request, validate_voices,
  compose_reviewer_trailer, compose_merge_message,
}
use mcp_tools.Wtpool.Merge.Host.{
  Host, Run, success, git_as, git_output, head_sha, current_branch, branch_already_merged,
}
use mcp_tools.Wtpool.Merge.Host.Gates.{branch_carveout_eligible, enforce_lease_compliance}
use mcp_tools.Wtpool.Merge.Host.Rebase.{
  clean, clean_with_auto_resolve, conflict, TipEnforcement, not_applicable, no_rebase,
  sha_shift_identical_tree, content_drift, write_file, run_rebase_main, enforce_merge_tip,
}

abbrev is_plain_char : ℕ → Bool
is_plain_char c =
    is_ascii_alphanumeric c
    || (c == b'_')
    || (c == b'-')
    || (c == b'/')
    || (c == b'.')
    || (c == b':')
    || (c == b'=')
    || (c == b'+')
    || (c == b',')
    || (c == b'@')

-- `s.replace('\'', "'\\''")`
abbrev escape_quotes : Str → Str
escape_quotes [] = []
escape_quotes (c ∷ s) =
    let rest = escape_quotes s in if c == 39 then 39 ∷ 92 ∷ 39 ∷ 39 ∷ rest else c ∷ rest

unfoldable pub shell_quote : Str → Str
unfolding all is_ascii_alphanumeric
shell_quote [] = 39 ∷ 39 ∷ []
shell_quote (c ∷ s) =
    if all is_plain_char (c ∷ s) then c ∷ s else 39 ∷ (escape_quotes (c ∷ s) ++ 39 ∷ [])

abbrev quote_all : List Str → Str
quote_all [] = []
quote_all (a ∷ args) = b' ' ∷ (shell_quote a ++ quote_all args)

unfoldable pub render_command : Str → List Str → Bool → Str
unfolding shell_quote
render_command repo args with_override =
    (if with_override then str "ALLOW_MAIN_COMMIT=1 " else [])
    ++ (str "git -C " ++ (shell_quote repo ++ quote_all args))

-- The answer's fields; the status is the constructor's own but for a merge that failed.
pub data Report : Type 0 where
  was_merged : (main_tip branch_tip : Str) → Report
  proposed : (main_tip branch_tip message_path : Str) → Report
  conflicted : (main_tip branch_tip : Str) → (kind : ConflictKind) → (files : List Str) → Report
  stopped :
      (status : MergeStatus) → (hook_output main_tip branch_tip : Str) → (resolved : Bool) → Report
  landed :
      (main_tip branch_tip post_main_tip message_path rendered post_branch_tip : Str)
      → (resolved trailer_present : Bool) → (drift_override : Option TipEnforcement) → Report

unfoldable pub status_of : Report → MergeStatus
status_of (was_merged _ _) = already_merged
status_of (proposed _ _ _) = dry_run
status_of (conflicted _ _ _ _) = rebase_conflict
status_of (stopped status _ _ _ _) = status
status_of (landed _ _ _ _ _ _ _ _ _) = merged

abbrev pub is_one : Option Str → Bool
is_one none = false
is_one (some s) = str_eq s (str "1")

abbrev require : Bool → MergeError → Result (Unit {0}) MergeError
require true e = ok tt
require false e = err e

abbrev refuse_drift : Bool → TipEnforcement → Result (Option TipEnforcement) MergeError
refuse_drift allowed not_applicable = ok none
refuse_drift allowed no_rebase = ok none
refuse_drift allowed (sha_shift_identical_tree a b) = ok none
refuse_drift true (content_drift a b c) = ok (some (content_drift a b c))
refuse_drift false (content_drift a b c) = err (merge_tip_drift a b c)

-- A failure in which a hook names itself is told apart from any other.
unfoldable pub failure_status : Str → MergeStatus
failure_status combined =
    if contains (str "ALLOW_MAIN_COMMIT") combined
      || contains (str "enforce-main-commit-policy") combined
      || contains (str "protect-main-edits") combined
    then hook_blocked
    else rebase_conflict

module _ {W : Type 0} (host : Host W) (main_repo worktree : Str) (req : MergeRequest) where
  abbrev pub bypass_subject_check : Bool
  bypass_subject_check = is_one (host.env (str "BYPASS_SUBJECT_BRANCH_CHECK"))

  -- The gates before anything is changed.
  unfoldable pub check_request : Run W (Unit {0})
  check_request = do
    reads (λ s. validate_request bypass_subject_check req)
    worktree_branch ← current_branch host worktree
    reads (λ s.
        require (str_eq worktree_branch req.branch)
          (wrong_branch worktree worktree_branch req.branch))
    carveout_eligible ← branch_carveout_eligible host worktree
    reads (λ s. validate_voices req carveout_eligible)
    reads (λ s. enforce_lease_compliance host main_repo req s.world)

  unfoldable pub commit_message_contains_trailer : Str → Run W Bool
  commit_message_contains_trailer sha = do
    out ← git_output host main_repo (str "log" ∷ str "-1" ∷ str "--format=%B" ∷ sha ∷ [])
    reads (λ s. ok (contains (compose_reviewer_trailer req.reviewer_voices) out))

  abbrev message_path : Str → Str
  message_path suffix = str "/tmp/merge-msg-" ++ (req.branch ++ (str "-" ++ (suffix ++ str ".txt")))

  -- The merge commit, and the check of what it left.
  unfoldable pub run_merge : Str → Str → Bool → Str → Option TipEnforcement → Run W Report
  run_merge pre_main_tip pre_branch_tip resolved post_branch_tip drift = do
    let msg_path = message_path (take 8 pre_branch_tip)
    write_file host msg_path (compose_merge_message req)
    let merge_args = str "merge" ∷ str "--no-ff" ∷ req.branch ∷ str "-F" ∷ msg_path ∷ []
    let rendered = render_command main_repo merge_args true
    out ← git_as host true main_repo merge_args
    let combined = str "$ " ++ (rendered ++ (10 ∷ (out.stdout ++ out.stderr)))
    let verify : Run W Report = (do
      post_main_tip ← head_sha host main_repo
      trailer_present ← commit_message_contains_trailer post_main_tip
      pure (
          landed pre_main_tip pre_branch_tip post_main_tip msg_path rendered post_branch_tip
            resolved trailer_present drift))
    if success out
        then verify
        else pure (stopped (failure_status combined) combined pre_main_tip pre_branch_tip resolved)

  unfoldable pub after_rebase : Str → Str → Bool → Run W Report
  after_rebase pre_main_tip pre_branch_tip resolved = do
    post_branch_tip ← head_sha host worktree
    tip ← enforce_merge_tip host main_repo worktree req pre_branch_tip post_branch_tip
    drift ← reads (λ s. refuse_drift (is_one (host.env (str "WTPOOL_ALLOW_TIP_DRIFT"))) tip)
    run_merge pre_main_tip pre_branch_tip resolved post_branch_tip drift

  unfoldable pub rebase_and_merge : Str → Str → Run W Report
  rebase_and_merge pre_main_tip pre_branch_tip = do
    outcome ← run_rebase_main host worktree req.auto_resolve_cumulative_md
    elim outcome [
      | clean ↦ after_rebase pre_main_tip pre_branch_tip false
      | clean_with_auto_resolve ↦ after_rebase pre_main_tip pre_branch_tip true
      | conflict kind files ↦ pure (conflicted pre_main_tip pre_branch_tip kind files)
    ]

  unfoldable pub propose : Str → Str → Run W Report
  propose pre_main_tip pre_branch_tip = do
    let path = message_path (str "DRYRUN")
    write_file host path (compose_merge_message req)
    pure (proposed pre_main_tip pre_branch_tip path)

  -- The tips before the merge, and whether main has the branch already.
  unfoldable pub snapshot : Run W ((Str × Str) × Bool)
  snapshot = do
    pre_main_tip ← head_sha host main_repo
    pre_branch_tip ← head_sha host worktree
    already ← branch_already_merged host main_repo pre_branch_tip
    pure ((pre_main_tip, pre_branch_tip), already)

  unfoldable pub proceed : (Str × Str) × Bool → Run W Report
  proceed ((pre_main_tip, pre_branch_tip), true) = pure (was_merged pre_main_tip pre_branch_tip)
  proceed ((pre_main_tip, pre_branch_tip), false) =
      if req.dry_run
      then propose pre_main_tip pre_branch_tip
      else rebase_and_merge pre_main_tip pre_branch_tip

  unfoldable pub merge_to_main : Run W Report
  merge_to_main = do check_request; tips ← snapshot; proceed tips
