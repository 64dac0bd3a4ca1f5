-- ===== src/Wtpool/Merge.antt =====
-- wtpool/src/merge.rs: the request of a merge, the checks that need no repository, and the message.
pub mod Voices
pub mod Host
pub mod Compliance
pub mod Guarded
pub mod Aborted
use mcp_tools.Prelude.{
  ℕ, Bool, true, false, not, ◌&&◌, ◌||◌, Option, none, some, List, [], ◌∷◌, ◌++◌, ltb,
  if◌then◌else◌, is_empty, any, all, Str, str, str_eq, len, contains, trim, trim_end,
}
use mcp_tools.Prelude.Result.{Result, ok, err, ◌>>=◌, ◌>>◌, ensure}
use mcp_tools.Wtpool.Lease.Glob.{glob_match}
use mcp_tools.Wtpool.CumulativeMd.{ConflictKind}

abbrev pub cumulative_md_rel : Str
cumulative_md_rel = str "docs/plans/cumulative.md"

abbrev pub rule13_carveout_allowlist : List Str
rule13_carveout_allowlist =
    str "benchmark/**"
    ∷ str "project/shared/agent-ledger.md"
    ∷ str "project/shared/followup-tracker-*.md"
    ∷ str "project/shared/agent-ledger-archive-*.md"
    ∷ str "tools/routing-policy.md"
    ∷ str "STARTUP.md"
    ∷ []

abbrev pub rule13_carveout_trailer : Str
rule13_carveout_trailer = str "Reviewed-by: rule-13-carveout"

pub data MergeStatus : Type 0 where
  merged rebase_conflict test_gate_failed hook_blocked already_merged dry_run : MergeStatus

pub record MergeRequest : Type 0 where
  pub branch : Str
  pub reviewer_voices : List Str
  pub merge_message_subject : Str
  pub merge_message_body : Str
  pub auto_resolve_cumulative_md : Bool
  pub dry_run : Bool

-- What the message of each error reports.
pub data MergeError : Type 0 where
  empty_branch : MergeError
  long_subject : (bytes : ℕ) → MergeError
  empty_subject : MergeError
  subject_without_branch : (subject branch : Str) → MergeError
  only_worktree_worker : MergeError
  no_voice : MergeError
  wrong_branch : (worktree checked_out branch : Str) → MergeError
  command_failed : (dir : Str) → (command : List Str) → (stderr : Str) → MergeError
  file_failed : (path message : Str) → MergeError
  lease_violation : (voice verdict_path : Str) → MergeError
  verdict_parse_failed : (voice verdict_path details : Str) → MergeError
  verdict_tip_unresolvable : (voice verdict_path reviewed_tip : Str) → MergeError
  post_rebase_tip_unresolvable : (tip : Str) → MergeError
  merge_tip_drift : (reviewed_tip post_rebase_tip summary : Str) → MergeError

-- A voice that is not blank and not the worker's own.
abbrev pub is_real_voice : Str → Bool
is_real_voice v = not (str_eq (trim v) (str "worktree-worker")) && not (is_empty (trim v))

-- `bypass_subject_check`: the variable BYPASS_SUBJECT_BRANCH_CHECK is `1`.
unfoldable pub validate_request : Bool → MergeRequest → Result (Unit {0}) MergeError
validate_request bypass_subject_check req = do
  ensure (not (is_empty (trim req.branch))) empty_branch
  ensure (not (ltb 72 (len req.merge_message_subject)))
      (long_subject (len req.merge_message_subject))
  ensure (not (is_empty (trim req.merge_message_subject))) empty_subject
  ensure (bypass_subject_check || contains req.branch req.merge_message_subject)
      (subject_without_branch req.merge_message_subject req.branch)
  ensure (is_empty req.reviewer_voices || any is_real_voice req.reviewer_voices)
      only_worktree_worker

abbrev pub is_worker_voice : Str → Bool
is_worker_voice v = str_eq (trim v) (str "worktree-worker") || is_empty (trim v)

abbrev pub voices_gate : List Str → Bool → Result (Unit {0}) MergeError
voices_gate voices carveout_eligible =
    if any is_real_voice voices
    then ok tt
    else if not (is_empty voices) && all is_worker_voice voices
    then err only_worktree_worker
    else if carveout_eligible
    then ok tt
    else err no_voice

unfoldable pub validate_voices : MergeRequest → Bool → Result (Unit {0}) MergeError
validate_voices req carveout_eligible = voices_gate req.reviewer_voices carveout_eligible

abbrev pub is_allowlisted : Str → Bool
is_allowlisted p =
    if is_empty (trim p)
    then false
    else any (λ pat. glob_match pat (trim p)) rule13_carveout_allowlist

unfoldable pub is_carveout_eligible : List Str → Bool
is_carveout_eligible paths = if is_empty paths then false else all is_allowlisted paths

-- The lines, with a line feed between two of them.
unfoldable pub join_lines : List Str → Str
join_lines [] = []
join_lines (l ∷ []) = l
join_lines (l ∷ m ∷ ls) = l ++ 10 ∷ join_lines (m ∷ ls)

abbrev pub trailer_lines : List Str → List Str
trailer_lines [] = []
trailer_lines (v ∷ vs) = (str "Reviewed-by: " ++ trim v) ∷ trailer_lines vs

-- The warning about a voice that is not canonical is left out.
unfoldable pub compose_reviewer_trailer : List Str → Str
unfolding join_lines
compose_reviewer_trailer [] = rule13_carveout_trailer
compose_reviewer_trailer (v ∷ vs) = join_lines (trailer_lines (v ∷ vs))

abbrev pub body_part : Str → Str
body_part [] = []
body_part (c ∷ body) = (c ∷ body) ++ str "\n\n"

unfoldable pub compose_merge_message : MergeRequest → Str
compose_merge_message req =
    trim_end req.merge_message_subject
    ++ (str "\n\n"
        ++ (body_part (trim_end req.merge_message_body)
            ++ (compose_reviewer_trailer req.reviewer_voices ++ str "\n")))
