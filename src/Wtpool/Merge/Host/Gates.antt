-- ===== src/Wtpool/Merge/Host/Gates.antt =====
-- The gates of wtpool/src/merge.rs that look at the worktree and at the verdict files.
use mcp_tools.Prelude.{
  Bool, true, false, not, ◌||◌, Option, none, some, List, [], ◌∷◌, ◌++◌, if◌then◌else◌, is_empty,
  Str, str, str_eq, trim, join_path,
}
use mcp_tools.Prelude.Result.{Result, ok, err}
use mcp_tools.Prelude.Action.{◌>>=◌, reads}
use mcp_tools.Wtpool.Lease.Contract.{path_starts_with}
use mcp_tools.Wtpool.Merge.{
  MergeRequest, MergeError, file_failed, lease_violation, verdict_parse_failed,
  is_carveout_eligible,
}
use mcp_tools.Wtpool.Merge.Host.{GitOutput, Verdict, Host, Run, success, branch_changed_paths}

abbrev pub unwrap_or : Option Str → Str → Str
unwrap_or none d = d
unwrap_or (some s) d = s

unfoldable pub voice_skip_for_lease : Str → Bool
voice_skip_for_lease voice =
    let trimmed = trim voice in is_empty trimmed || str_eq trimmed (str "worktree-worker")

pub data Finding : Type 0 where
  compliant : Finding
  violation : Finding
  unparsed : (details : Str) → Finding

module _ {W : Type 0} (host : Host W) where
  -- A path that resolves has to lie in the worktree; one that does not resolve must be no symlink.
  abbrev stays_inside : Str → List Str → Str → W → Bool
  stays_inside worktree wt_canon p w = elim (host.canonicalize (join_path worktree p) w) [
    | ok canon ↦ path_starts_with canon wt_canon
    | err e ↦ not (host.is_symlink (join_path worktree p) w)
  ]

  unfoldable pub all_stay_inside : Str → List Str → List Str → W → Bool
  all_stay_inside worktree wt_canon [] w = true
  all_stay_inside worktree wt_canon (p ∷ ps) w =
      let later = all_stay_inside worktree wt_canon ps w in
      if stays_inside worktree wt_canon p w then later else false

  abbrev eligible_paths : Str → List Str → W → Result Bool MergeError
  eligible_paths worktree paths w = elim (host.canonicalize worktree w) [
    | err e ↦ err (file_failed worktree e)
    | ok wt_canon ↦
        ok (if all_stay_inside worktree wt_canon paths w then is_carveout_eligible paths else false)
  ]

  unfoldable pub branch_carveout_eligible : Str → Run W Bool
  branch_carveout_eligible worktree = do
    paths ← branch_changed_paths host worktree
    reads (λ s. if is_empty paths then ok false else eligible_paths worktree paths s.world)

  unfoldable pub extract_verdict_script : Str → Str
  extract_verdict_script main_repo =
      unwrap_or (host.env (str "WTPOOL_EXTRACT_VERDICT_BIN"))
        (join_path main_repo (str "tools/extract-verdict.sh"))

  unfoldable pub verdict_file_path : Str → Str → Str
  verdict_file_path branch voice =
      join_path (unwrap_or (host.env (str "WTPOOL_VERDICT_DIR")) (str "/tmp"))
        (branch ++ (str "-" ++ (voice ++ str ".md")))

  abbrev finding_of_verdict : Result Verdict Str → Finding
  finding_of_verdict (err details) = unparsed details
  finding_of_verdict (ok v) =
      if str_eq (unwrap_or v.lease_compliance (str "not-applicable")) (str "out-of-scope")
      then violation
      else compliant

  abbrev finding_of_output : GitOutput → Finding
  finding_of_output out =
      if success out
      then finding_of_verdict (host.parse_verdict (trim out.stdout))
      else unparsed out.stderr

  unfoldable pub probe : Str → Str → Str → W → Result Finding MergeError
  probe script voice vf w = elim (host.run_script script vf w) [
    | err e ↦ err (verdict_parse_failed (trim voice) vf e)
    | ok out ↦ ok (finding_of_output out)
  ]

  -- What one voice's verdict file says; a voice without a file is not looked into.
  unfoldable pub finding : Str → Str → Str → W → Result Finding MergeError
  finding main_repo branch voice w =
      let vf = verdict_file_path branch (trim voice) in
      if voice_skip_for_lease voice
      then ok compliant
      else if host.exists vf w
      then probe (extract_verdict_script main_repo) voice vf w
      else ok compliant

  abbrev first_error : List MergeError → List MergeError → Result (Unit {0}) MergeError
  first_error (v ∷ vs) parse_failures = err v
  first_error [] (f ∷ fs) = err f
  first_error [] [] = ok tt

  abbrev violations_of : Str → Str → Finding → List MergeError
  violations_of voice vf compliant = []
  violations_of voice vf violation = lease_violation voice vf ∷ []
  violations_of voice vf (unparsed details) = []

  abbrev failures_of : Str → Str → Finding → List MergeError
  failures_of voice vf compliant = []
  failures_of voice vf violation = []
  failures_of voice vf (unparsed details) = verdict_parse_failed voice vf details ∷ []

  -- The loop over the voices, with the violations and the parse failures so far.
  unfoldable pub lease_loop :
      Str → Str → List Str → List MergeError → List MergeError → W → Result (Unit {0}) MergeError
  lease_loop main_repo branch [] violations failures w = first_error violations failures
  lease_loop main_repo branch (voice ∷ voices) violations failures w =
      let vf = verdict_file_path branch (trim voice) in
      elim (finding main_repo branch voice w) [
        | err e ↦ err e
        | ok f ↦
            lease_loop main_repo branch voices (violations ++ violations_of (trim voice) vf f)
              (failures ++ failures_of (trim voice) vf f) w
      ]

  unfoldable pub enforce_lease_compliance : Str → MergeRequest → W → Result (Unit {0}) MergeError
  enforce_lease_compliance main_repo req = lease_loop main_repo req.branch req.reviewer_voices [] []
