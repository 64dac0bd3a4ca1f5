-- ===== src/Wtpool/Merge/Host/Rebase.antt =====
-- The rebase of wtpool/src/merge.rs with its conflict handling, and the comparison of the tip that
-- the reviewers signed with the tip after the rebase.
use mcp_tools.Prelude.{
  Bool, true, false, ◌&&◌, List, [], ◌∷◌, if◌then◌else◌, Str, str, str_eq, trim, join_path,
}
use mcp_tools.Prelude.Result.{Result, ok, err, map_err, ok_or}
use mcp_tools.Prelude.Action.{◌>>=◌, ◌>>◌, reads, pure}
use mcp_tools.Wtpool.CumulativeMd.{ConflictKind, content_mixed, resolve_cumulative_md_conflict}
use mcp_tools.Wtpool.Merge.{
  cumulative_md_rel, MergeRequest, MergeError, file_failed, verdict_parse_failed,
  verdict_tip_unresolvable, post_rebase_tip_unresolvable,
}
use mcp_tools.Wtpool.Merge.Host.{
  GitOutput, Verdict, Host, Run, success, trimmed_lines, git, git_output, rev_parse_tree,
}
use mcp_tools.Wtpool.Merge.Host.Gates.{
  voice_skip_for_lease, extract_verdict_script, verdict_file_path,
}

pub data RebaseOutcome : Type 0 where
  clean : RebaseOutcome
  clean_with_auto_resolve : RebaseOutcome
  conflict : (kind : ConflictKind) → (files : List Str) → RebaseOutcome

pub data TipEnforcement : Type 0 where
  not_applicable : TipEnforcement
  no_rebase : TipEnforcement
  sha_shift_identical_tree : (reviewed_tip post_rebase_tip : Str) → TipEnforcement
  content_drift : (reviewed_tip post_rebase_tip tree_diff_summary : Str) → TipEnforcement

abbrev is_only_cumulative : List Str → Bool
is_only_cumulative [] = false
is_only_cumulative (f ∷ []) = str_eq f cumulative_md_rel
is_only_cumulative (f ∷ g ∷ fs) = false

module _ {W : Type 0} (host : Host W) where
  unfoldable pub write_file : Str → Str → Run W (Unit {0})
  write_file path text s =
      let (answer, world) = host.write_file path text s.world in
      (map_err (file_failed path) answer, record s { world = world })

  -- `let _ = git(...)`: the answer is dropped, an error too.
  unfoldable pub git_ignored : Str → List Str → Run W (Unit {0})
  git_ignored dir args s = (ok tt, (git host dir args s).1)

  unfoldable pub abort_with : Str → RebaseOutcome → Run W RebaseOutcome
  abort_with worktree outcome = do
    git_ignored worktree (str "rebase" ∷ str "--abort" ∷ [])
    pure outcome

  unfoldable pub continue_rebase : Str → List Str → Str → Run W RebaseOutcome
  continue_rebase worktree files resolved = do
    write_file (join_path worktree cumulative_md_rel) resolved
    added ← git host worktree (str "add" ∷ cumulative_md_rel ∷ [])
    cont ← git host worktree (str "rebase" ∷ str "--continue" ∷ [])
    if success cont
        then pure clean_with_auto_resolve
        else abort_with worktree (conflict content_mixed files)

  unfoldable pub auto_resolve : Str → List Str → Run W RebaseOutcome
  auto_resolve worktree files = do
    let p = join_path worktree cumulative_md_rel
    body ← reads (λ s. map_err (file_failed p) (host.read_to_string p s.world))
    elim (resolve_cumulative_md_conflict body) [
      | ok resolved ↦ continue_rebase worktree files resolved
      | err kind ↦ abort_with worktree (conflict kind files)
    ]

  unfoldable pub on_conflict : Str → Bool → List Str → Run W RebaseOutcome
  on_conflict worktree auto files =
      if is_only_cumulative files && auto
      then auto_resolve worktree files
      else abort_with worktree (conflict content_mixed files)

  unfoldable pub list_conflicts : Str → Bool → Run W RebaseOutcome
  list_conflicts worktree auto = do
    unmerged ← git host worktree (str "diff" ∷ str "--name-only" ∷ str "--diff-filter=U" ∷ [])
    on_conflict worktree auto (trimmed_lines unmerged.stdout)

  unfoldable pub run_rebase_main : Str → Bool → Run W RebaseOutcome
  run_rebase_main worktree auto = do
    out ← git host worktree (str "rebase" ∷ str "main" ∷ [])
    if success out then pure clean else list_conflicts worktree auto

  -- An action whose error is replaced.
  abbrev or_error : {A : Type 0} → MergeError → Run W A → Run W A
  or_error e m s = (map_err (λ _. e) (m s).0, (m s).1)

  abbrev first_line : List Str → Str
  first_line [] = str "tree contents differ"
  first_line (l ∷ ls) = l

  abbrev summary_of : Result Str MergeError → Str
  summary_of (ok out) = first_line (trimmed_lines out)
  summary_of (err e) = str "tree diff summary unavailable"

  -- `diff_stat_summary`, with the text that takes the place of an error.
  unfoldable pub diff_stat_summary : Str → Str → Str → Run W Str
  diff_stat_summary repo lhs rhs s =
      let (answer, after) = git_output host repo (str "diff" ∷ str "--stat" ∷ lhs ∷ rhs ∷ []) s in
      (ok (summary_of answer), after)

  abbrev tip_of : Str → Str → Result Verdict Str → Result Str MergeError
  tip_of voice vf (err e) = err (verdict_parse_failed voice vf e)
  tip_of voice vf (ok v) =
      ok_or v.tip (
        verdict_parse_failed voice vf
          (str "extract-verdict.sh JSON missing top-level `tip` string"))

  abbrev tip_of_output : Str → Str → Result GitOutput Str → Result Str MergeError
  tip_of_output voice vf (err e) = err (verdict_parse_failed voice vf e)
  tip_of_output voice vf (ok out) =
      if success out
      then tip_of voice vf (host.parse_verdict (trim out.stdout))
      else err (verdict_parse_failed voice vf (trim out.stderr))

  unfoldable pub reviewed_tip_of : Str → Str → Str → W → Result Str MergeError
  reviewed_tip_of main_repo voice vf w =
      tip_of_output voice vf (host.run_script (extract_verdict_script host main_repo) vf w)

  abbrev shifted : Str → Str → TipEnforcement → TipEnforcement
  shifted tip post not_applicable = sha_shift_identical_tree tip post
  shifted tip post no_rebase = sha_shift_identical_tree tip post
  shifted tip post (sha_shift_identical_tree a b) = sha_shift_identical_tree a b
  shifted tip post (content_drift a b c) = content_drift a b c

  abbrev settle : Bool → Str → Str → TipEnforcement → TipEnforcement
  settle false pre post outcome = not_applicable
  settle true pre post not_applicable = if str_eq pre post then no_rebase else not_applicable
  settle true pre post no_rebase = no_rebase
  settle true pre post (sha_shift_identical_tree a b) = sha_shift_identical_tree a b
  settle true pre post (content_drift a b c) = content_drift a b c

  abbrev drift : Str → Str → Str → Run W TipEnforcement
  drift main_repo tip post = do
    summary ← diff_stat_summary main_repo tip post
    pure (content_drift tip post summary)

  -- The loop over the voices, with whether a verdict was seen and the outcome so far.
  unfoldable pub tip_loop :
      Str
      → Str
      → MergeRequest
      → Str
      → Str
      → Str
      → List Str
      → Bool
      → TipEnforcement
      → Run W TipEnforcement
  tip_loop main_repo worktree req pre post tree [] saw outcome s =
      (ok (settle saw pre post outcome), s)
  tip_loop main_repo worktree req pre post tree (voice ∷ voices) saw outcome s =
      let vf = verdict_file_path host req.branch (trim voice) in
      let pass_over = tip_loop main_repo worktree req pre post tree voices saw outcome in
      let go_on = tip_loop main_repo worktree req pre post tree voices true in
      let look : Run W TipEnforcement = (do
        tip ← reads (λ t. reviewed_tip_of main_repo (trim voice) vf t.world)
        reviewed_tree ←
            or_error (verdict_tip_unresolvable (trim voice) vf tip)
              (rev_parse_tree host worktree tip)
        if str_eq reviewed_tree tree
            then go_on no_rebase
            else if str_eq tip post
            then go_on (shifted tip post outcome)
            else drift main_repo tip post) in
      elim (voice_skip_for_lease voice) [
        | true ↦ pass_over s
        | false ↦ elim (host.exists vf s.world) [ true ↦ look s | false ↦ pass_over s ]
      ]

  unfoldable pub enforce_merge_tip : Str → Str → MergeRequest → Str → Str → Run W TipEnforcement
  enforce_merge_tip main_repo worktree req pre post = do
    tree ← or_error (post_rebase_tip_unresolvable post) (rev_parse_tree host worktree post)
    tip_loop main_repo worktree req pre post tree req.reviewer_voices false not_applicable
