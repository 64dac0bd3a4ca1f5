-- ===== src/Tests/Merge.antt =====
-- Runs of wtpool/src/merge.rs on a machine whose commands all succeed.
use mcp_tools.Prelude.{
  split, ℕ, ◌≡◌, ◌≢◌, ◌↔◌, ◌⊎◌, refl, true, false, none, some, List, [], ◌∷◌, All, Any, trim,
  str_eq, Str, str,
}
use mcp_tools.Prelude.Result.{ok}
use mcp_tools.Wtpool.Lease.Glob.{glob_match}
use mcp_tools.Wtpool.Merge.{
  rule13_carveout_allowlist, MergeRequest, validate_voices, is_carveout_eligible,
  compose_reviewer_trailer, compose_merge_message,
}
use mcp_tools.Wtpool.Merge.Voices.{IsReviewer, validate_voices_iff, is_carveout_eligible_iff}
use mcp_tools.Wtpool.Merge.Host.{Host, State, git_as, trimmed_lines}
use mcp_tools.Wtpool.Merge.Host.Gates.{enforce_lease_compliance}
use mcp_tools.Wtpool.Merge.Host.Rebase.{
  conflict, git_ignored, abort_with, on_conflict, list_conflicts, run_rebase_main,
}
use mcp_tools.Wtpool.CumulativeMd.{content_mixed}
use mcp_tools.Wtpool.Merge.Aborted.{latest, abort_of, run_rebase_main-aborts}
use mcp_tools.Wtpool.Merge.Host.Orchestration.{merge_to_main}
use mcp_tools.Wtpool.Merge.Compliance.{IsCompliant, enforce_lease_compliance_iff}
use mcp_tools.Wtpool.Merge.Guarded.{OnlyReads, IsPassed, merge_to_main-guarded}

abbrev request : MergeRequest
request = record {
  branch = str "topic";
  reviewer_voices = str "torvalds" ∷ str " lattner" ∷ str "worktree-worker" ∷ [];
  merge_message_subject = str "merge topic";
  merge_message_body = str "two fixes\n";
  auto_resolve_cumulative_md = true;
  dry_run = false;
}

message :
    compose_merge_message request
    ≡ str
        "merge topic\n\ntwo fixes\n\nReviewed-by: torvalds\nReviewed-by: lattner\nReviewed-by: worktree-worker\n"
unfolding compose_merge_message compose_reviewer_trailer trim
message = refl

validate_voices_iff_example :
    (validate_voices request false ≡ ok tt)
    ↔ (Any IsReviewer request.reviewer_voices ⊎ ((request.reviewer_voices ≡ []) × (false ≡ true)))
validate_voices_iff_example = validate_voices_iff request false

abbrev paths : List Str
paths = str "benchmark/a/b.txt" ∷ str "STARTUP.md" ∷ []

is_carveout_eligible_iff_example : (is_carveout_eligible paths ≡ true) ↔ (
    (paths ≢ [])
    × All
        (λ p. (trim p ≢ []) × Any (λ pat. glob_match pat (trim p) ≡ true) rule13_carveout_allowlist)
        paths)
is_carveout_eligible_iff_example = is_carveout_eligible_iff paths

abbrev host : Host ℕ
host = record {
  git = λ allow dir args w. (ok (record { status = 0; stdout = str "topic\n"; stderr = [] }), w);
  env = λ name. none;
  canonicalize = λ path w. ok [];
  is_symlink = λ path w. false;
  exists = λ path w. true;
  run_script = λ script path w. ok (record { status = 0; stdout = str "{}"; stderr = [] });
  parse_verdict = λ text. ok (record { tip = none; lease_compliance = some (str "in-scope") });
  read_to_string = λ path w. ok [];
  write_file = λ path text w. (ok tt, w);
}

abbrev at_start : State ℕ
at_start = record { world = 0; ran = [] }

enforce_lease_compliance_iff_example :
    (enforce_lease_compliance host (str "/r") request 0 ≡ ok tt)
    ↔ All (IsCompliant host (str "/r") request.branch 0) request.reviewer_voices
enforce_lease_compliance_iff_example = enforce_lease_compliance_iff host (str "/r") request 0

merge_to_main-guarded_example :
    OnlyReads at_start (merge_to_main host (str "/r") (str "/wt") request at_start).1
    ⊎ ((request.dry_run ≡ false) × IsPassed host (str "/r") (str "/wt") request at_start)
merge_to_main-guarded_example = merge_to_main-guarded host (str "/r") (str "/wt") request at_start

-- Every command fails, and what it writes names one file.
abbrev conflicting : Host ℕ
conflicting = record host {
  git = λ allow dir args w. (ok (record { status = 1; stdout = str "src/a.rs\n"; stderr = [] }), w);
}

given_up :
    (run_rebase_main conflicting (str "/wt") true at_start).0
    ≡ ok (conflict content_mixed (str "src/a.rs" ∷ []))
unfolding run_rebase_main list_conflicts on_conflict abort_with git_ignored git_as trimmed_lines
    trim str_eq split
given_up = refl

run_rebase_main-aborts_example :
    latest (run_rebase_main conflicting (str "/wt") true at_start).1.ran
    ≡ some (abort_of (str "/wt"))
run_rebase_main-aborts_example =
    run_rebase_main-aborts conflicting (str "/wt") true at_start content_mixed (str "src/a.rs" ∷ [])
      given_up
