-- ===== src/Wtpool/Lease/Contract.antt =====
-- wtpool/src/lease.rs: the lease, its errors, its reader's and emitter's checks, and the questions
-- that hooks ask of it. From outside the crate come the deserializer (bytes to a lease, or serde's
-- message), `fs::canonicalize` (a path to its components, if it resolves) and the clock.
pub mod Checks
pub mod Store
use mcp_tools.Prelude.{
  ℕ, ◌+◌, Bool, true, false, not, ◌&&◌, ◌||◌, Option, none, some, List, [], ◌∷◌, ltb, leb, ◌==◌,
  if◌then◌else◌, is_empty, any, all, Str, str, str_eq, len, strip_prefix, is_ascii_alphanumeric,
  is_empty,
}
use mcp_tools.Prelude.Int.{ℤ, pos, ltb_ℤ}
use mcp_tools.Prelude.Result.{Result, ok, err, ◌>>=◌, ◌>>◌, ensure, ok_or, map_err}
use mcp_tools.Wtpool.Lease.Glob.{glob_match}
use mcp_tools.Wtpool.Lease.Time.{is_valid_rfc3339, rfc3339_to_unix, unix_to_rfc3339}

abbrev pub schema_version : ℕ
schema_version = 1

pub data Worker : Type 0 where
  claude_opus claude_sonnet claude_haiku codex human : Worker

pub record WorktreeLease : Type 0 where
  pub schema_version : ℕ
  pub task_id : Str
  pub worker : Worker
  pub worktree : Str
  pub branch : Str
  pub allowed_paths : List Str
  pub forbidden_paths : List Str
  pub test_commands : List Str
  pub merge_authority : Str
  pub created_at : Str
  pub expires_at : Option Str
  pub parent_task_id : Option Str

-- The source of an I/O or a JSON error is its message.
pub data LeaseError : Type 0 where
  io : (path source : Str) → LeaseError
  invalid_json : (path source : Str) → LeaseError
  missing_field : (field : Str) → LeaseError
  unsupported_schema_version : (got want : ℕ) → LeaseError
  worktree_not_found : (path : Str) → LeaseError
  invalid_timestamp : (field value : Str) → LeaseError
  invalid_task_id : (value : Str) → LeaseError

unfoldable pub kind : LeaseError → Str
kind (io _ _) = str "io"
kind (invalid_json _ _) = str "invalid_json"
kind (missing_field _) = str "missing_field"
kind (unsupported_schema_version _ _) = str "unsupported_schema_version"
kind (worktree_not_found _) = str "worktree_not_found"
kind (invalid_timestamp _ _) = str "invalid_timestamp"
kind (invalid_task_id _) = str "invalid_task_id"

-- What stands behind the first occurrence of a text.
unfoldable pub after_first : Str → Str → Option Str
unfolding strip_prefix
after_first sub [] = strip_prefix sub []
after_first sub (c ∷ s) =
    let later = after_first sub s in
    elim (strip_prefix sub (c ∷ s)) [ some rest ↦ some rest | none ↦ later ]

-- What stands before the first occurrence of a character.
unfoldable pub before_first : ℕ → Str → Option Str
before_first c [] = none
before_first c (d ∷ s) =
    let rest = before_first c s in
    if d == c then some [] else elim rest [ none ↦ none | some front ↦ some (d ∷ front) ]

unfoldable pub parse_serde_missing_field : Str → Option Str
unfolding after_first before_first
parse_serde_missing_field msg = elim (after_first (str "missing field `") msg) [
  | none ↦ none
  | some rest ↦ before_first b'`' rest
]

unfoldable pub is_task_id_char : ℕ → Bool
unfolding is_ascii_alphanumeric
is_task_id_char c = is_ascii_alphanumeric c || (c == b'.') || (c == b'_') || (c == b'-')

unfoldable pub is_valid_task_id : Str → Bool
unfolding is_task_id_char is_ascii_alphanumeric
is_valid_task_id [] = false
is_valid_task_id (first ∷ chars) =
    if ltb 128 (len (first ∷ chars))
    then false
    else if not (is_ascii_alphanumeric first)
    then false
    else all is_task_id_char chars

-- `expires_at` is absent or a time stamp.
unfoldable pub check_expires_at : Option Str → Result (Unit {0}) LeaseError
check_expires_at none = ok tt
check_expires_at (some e) = ensure (is_valid_rfc3339 e) (invalid_timestamp (str "expires_at") e)

unfoldable pub validate_self : WorktreeLease → Result (Unit {0}) LeaseError
unfolding check_expires_at
validate_self lease = do
  ensure (lease.schema_version == schema_version)
      (unsupported_schema_version lease.schema_version schema_version)
  ensure (is_valid_task_id lease.task_id) (invalid_task_id lease.task_id)
  ensure (is_valid_rfc3339 lease.created_at) (invalid_timestamp (str "created_at") lease.created_at)
  check_expires_at lease.expires_at

unfoldable pub serde_error : Str → Str → LeaseError
serde_error path message = elim (parse_serde_missing_field message) [
  | some field ↦ missing_field field
  | none ↦ invalid_json path message
]

unfoldable pub from_json_bytes :
    (List ℕ → Result WorktreeLease Str) → List ℕ → Str → Result WorktreeLease LeaseError
unfolding serde_error
from_json_bytes from_slice bytes path = do
  lease ← map_err (serde_error path) (from_slice bytes)
  validate_self lease
  ok lease

unfoldable pub matches_path : WorktreeLease → Str → Bool
matches_path lease path =
    if is_empty path
    then false
    else if any (λ pat. glob_match pat path) lease.forbidden_paths
    then false
    else any (λ pat. glob_match pat path) lease.allowed_paths

unfoldable pub matches_test_command : WorktreeLease → Str → Bool
matches_test_command lease cmd = any (λ c. str_eq c cmd) lease.test_commands

-- `Path::starts_with` compares whole components.
unfoldable pub path_starts_with : List Str → List Str → Bool
path_starts_with path [] = true
path_starts_with [] (b ∷ base) = false
path_starts_with (c ∷ path) (b ∷ base) = str_eq c b && path_starts_with path base

unfoldable pub matches_cwd : (Str → Option (List Str)) → WorktreeLease → Str → Bool
matches_cwd canonicalize lease cwd = elim (canonicalize cwd) [
  | none ↦ false
  | some cwd_canon ↦ elim (canonicalize lease.worktree) [
    | none ↦ false
    | some wt_canon ↦ path_starts_with cwd_canon wt_canon
  ]
]

-- Both texts are time stamps, and the first is the later one.
unfoldable pub is_after : Str → Str → Bool
is_after now exp = elim (rfc3339_to_unix now) [
  | none ↦ false
  | some now_secs ↦ elim (rfc3339_to_unix exp) [
    | none ↦ false
    | some exp_secs ↦ ltb_ℤ exp_secs now_secs
  ]
]

unfoldable pub is_expired : WorktreeLease → Str → Bool
unfolding is_after
is_expired lease now = elim lease.expires_at [ none ↦ false | some exp ↦ is_after now exp ]

pub record LeaseEmitArgs : Type 0 where
  pub task_id : Str
  pub worker : Option Worker
  pub worktree : Str
  pub branch : Str
  pub allowed_paths : List Str
  pub forbidden_paths : List Str
  pub test_commands : List Str
  pub merge_authority : Option Str
  pub expires_at : Option Str
  pub parent_task_id : Option Str

abbrev pub default_merge_authority : Option Str → Str
default_merge_authority none = str "torvalds-review-agent"
default_merge_authority (some a) = a

-- `secs` is the clock's reading, in seconds since the epoch (0 if it stands before the epoch).
unfoldable pub now_rfc3339 : ℕ → Str
now_rfc3339 secs = unix_to_rfc3339 (pos secs)

unfoldable pub lease_of : LeaseEmitArgs → Worker → ℕ → WorktreeLease
unfolding now_rfc3339
lease_of args worker secs = record {
  schema_version = schema_version;
  task_id = args.task_id;
  worker = worker;
  worktree = args.worktree;
  branch = args.branch;
  allowed_paths = args.allowed_paths;
  forbidden_paths = args.forbidden_paths;
  test_commands = args.test_commands;
  merge_authority = default_merge_authority args.merge_authority;
  created_at = now_rfc3339 secs;
  expires_at = args.expires_at;
  parent_task_id = args.parent_task_id;
}

unfoldable pub into_lease : LeaseEmitArgs → ℕ → Result WorktreeLease LeaseError
into_lease args secs = do
  worker ← ok_or args.worker (missing_field (str "worker"))
  ensure (not (is_empty args.task_id)) (missing_field (str "task_id"))
  ensure (not (is_empty args.branch)) (missing_field (str "branch"))
  validate_self (lease_of args worker secs)
  ok (lease_of args worker secs)
