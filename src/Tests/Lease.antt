-- ===== src/Tests/Lease.antt =====
-- Runs of the lease checks of wtpool/src/lease.rs.
use mcp_tools.Prelude.{
  ℕ, ◌≡◌, ◌≢◌, ◌↔◌, ◌⊎◌, refl, true, false, Option, none, some, List, [], ◌∷◌, if◌then◌else◌, Any,
  any, Str, str, str_eq, split,
}
use mcp_tools.Prelude.Result.{Result, ok, err}
use mcp_tools.Wtpool.Lease.Glob.{glob_match}
use mcp_tools.Wtpool.Lease.Glob.Spec.{PathMatches, glob_match_iff}
use mcp_tools.Wtpool.Lease.Contract.{
  human, WorktreeLease, LeaseError, LeaseEmitArgs, from_json_bytes, matches_path,
}
use mcp_tools.Wtpool.Lease.Contract.Checks.{IsValid, from_json_bytes_iff, matches_path_iff}
use mcp_tools.Wtpool.Lease.Contract.Store.{
  Answers, Files, Serde, write, read_from_file, read_from_file-write,
}

glob_match_iff_example :
    (glob_match (str "src/**/*.rs") (str "src/a/b/lib.rs") ≡ true)
    ↔ PathMatches (split b'/' (str "src/**/*.rs")) (split b'/' (str "src/a/b/lib.rs"))
glob_match_iff_example = glob_match_iff (str "src/**/*.rs") (str "src/a/b/lib.rs")

deep_path : glob_match (str "src/**/*.rs") (str "src/a/b/lib.rs") ≡ true
unfolding glob_match
deep_path = refl

abbrev lease : WorktreeLease
lease = record {
  schema_version = 1;
  task_id = str "task-1";
  worker = human;
  worktree = str "/wt";
  branch = str "topic";
  allowed_paths = str "src/**" ∷ [];
  forbidden_paths = str "src/secret/*" ∷ [];
  test_commands = [];
  merge_authority = str "torvalds-review-agent";
  created_at = str "2024-02-29T12:00:00Z";
  expires_at = some (str "2024-03-01T12:00:00Z");
  parent_task_id = none;
}

matches_path_iff_example : (matches_path lease (str "src/secret/key") ≡ true) ↔ (
    (str "src/secret/key" ≢ [])
    × Any (λ pat. glob_match pat (str "src/secret/key") ≡ true) lease.allowed_paths
    × ¬ Any (λ pat. glob_match pat (str "src/secret/key") ≡ true) lease.forbidden_paths)
matches_path_iff_example = matches_path_iff lease (str "src/secret/key")

-- The file system resolves `/wt` and a directory below it.
abbrev canonicalize : Str → Option (List Str)
canonicalize path =
    if str_eq path (str "/wt")
    then some (str "wt" ∷ [])
    else if str_eq path (str "/wt/src")
    then some (str "wt" ∷ str "src" ∷ [])
    else none

abbrev to_vec_pretty : WorktreeLease → Result (List ℕ) Str
to_vec_pretty l = ok (str "{}")

abbrev from_slice : List ℕ → Result WorktreeLease Str
from_slice bytes =
    if str_eq bytes (str "{}\n") then ok lease else err (str "missing field `branch`")

from_json_bytes_iff_example :
    (from_json_bytes from_slice (str "{}\n") (str "/l.json") ≡ ok lease)
    ↔ ((from_slice (str "{}\n") ≡ ok lease) × IsValid lease)
from_json_bytes_iff_example = from_json_bytes_iff from_slice (str "{}\n") (str "/l.json") lease

serde : Serde to_vec_pretty from_slice lease
unfolding str_eq
serde json e = let same : json ≡ str "{}" = cc in rw same refl

abbrev answers : Answers
answers = record {
  is_dir = λ path. true;
  parent = str "/";
  tmp_path = str "/.tmp";
  creates = none;
  writes_json = none;
  writes_newline = none;
  syncs = none;
  persists = none;
}

abbrev no_files : Files
no_files path = none

read_from_file-write_example :
    let (result, after) = write to_vec_pretty answers lease (str "/l.json") true no_files in
    ((result ≡ ok tt)
      × (read_from_file from_slice (str "gone") (str "/l.json") after ≡ ok lease)
      × ((q : Str) → (str "/l.json" ≡ q) ⊎ (after q ≡ no_files q)))
    ⊎ ((e : LeaseError) × (result ≡ err e) × (after ≡ no_files))
read_from_file-write_example =
    read_from_file-write to_vec_pretty from_slice lease serde answers (str "/l.json") (str "gone")
      true no_files

abbrev args : LeaseEmitArgs
args = record {
  task_id = str "task-1";
  worker = some human;
  worktree = str "/wt";
  branch = str "topic";
  allowed_paths = str "src/**" ∷ [];
  forbidden_paths = str "src/secret/*" ∷ [];
  test_commands = [];
  merge_authority = none;
  expires_at = some (str "2024-03-01T12:00:00Z");
  parent_task_id = none;
}

out_of_bounds :
    (matches_path lease (str "src/lib.rs") ≡ true)
    × (matches_path lease (str "src/secret/key") ≡ false)
unfolding matches_path glob_match any
out_of_bounds = (refl, refl)
