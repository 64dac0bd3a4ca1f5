-- ===== src/Wtpool/Lease/Contract/Checks.antt =====
-- What the validators and the emitter of wtpool/src/lease.rs accept.
use mcp_tools.Prelude.{
  ℕ, ◌<◌, ◌≡◌, ◌≢◌, ◌↔◌, refl, sym, ap, ap₂, ◌∙◌, true, false, Option, none, some, List, [], ◌∷◌,
  ◌++◌, arith, Bool-cases, Option-cases, Any, any_iff, Str, str_eq_iff, inl, inr, is_empty,
}
use mcp_tools.Prelude.Int.{ℤ, ltb_ℤ}
use mcp_tools.Prelude.Result.{Result, ok, ◌>>◌, Result-cases}
use mcp_tools.Wtpool.Lease.Glob.{glob_match}
use mcp_tools.Wtpool.Lease.Time.{is_valid_rfc3339, rfc3339_to_unix}
use mcp_tools.Wtpool.Lease.Time.RoundTrip.{year_10000, is_valid_rfc3339-unix_to_rfc3339}
use mcp_tools.Wtpool.Lease.Contract.{
  schema_version, Worker, WorktreeLease, is_valid_task_id, check_expires_at, validate_self,
  from_json_bytes, matches_path, path_starts_with, matches_cwd, is_after, is_expired, LeaseEmitArgs,
  now_rfc3339, lease_of, into_lease,
}

-- An optional time stamp is a time stamp if it is there.
abbrev pub IsOptionalStamp : Option Str → Type 0
IsOptionalStamp none = Unit
IsOptionalStamp (some e) = is_valid_rfc3339 e ≡ true

pub record IsValid (lease : WorktreeLease) : Type 0 where
  pub version : lease.schema_version ≡ schema_version
  pub task : is_valid_task_id lease.task_id ≡ true
  pub created : is_valid_rfc3339 lease.created_at ≡ true
  pub expires : IsOptionalStamp lease.expires_at

check_expires_at_iff : (e : Option Str) → (check_expires_at e ≡ ok tt) ↔ IsOptionalStamp e
unfolding check_expires_at
check_expires_at_iff none = (λ h. tt, λ h. refl)
check_expires_at_iff (some e) = ground arith

pub validate_self_iff : (lease : WorktreeLease) → (validate_self lease ≡ ok tt) ↔ IsValid lease
unfolding validate_self
validate_self_iff lease = ground (arith, check_expires_at_iff lease.expires_at)

-- To hand out a lease once it is valid.
validated_iff : (l lease : WorktreeLease) → ((validate_self l >> ok lease) ≡ ok lease) ↔ IsValid l
validated_iff l lease = elim (Result-cases (validate_self l)) [
  | inl (tt, e) ↦ rw e ((λ _. (validate_self_iff l).0 e), λ _. refl)
  | inr (m, e) ↦ rw e ((λ h. cc), λ v. cc (e, (validate_self_iff l).1 v))
]

validated_same : (l lease : WorktreeLease) → (validate_self l >> ok l) ≡ ok lease → l ≡ lease
validated_same l lease h = elim (Result-cases (validate_self l)) [
  | inl (tt, e) ↦ cc (rw e at h)
  | inr (m, e) ↦ cc (rw e at h)
]

-- A lease is read from bytes exactly if the deserializer yields it and it is valid: version 1, a
-- well-formed task id, and time stamps that parse.
pub from_json_bytes_iff :
    (from_slice : List ℕ → Result WorktreeLease Str) (bytes : List ℕ) (path : Str)
    (lease : WorktreeLease)
    → (from_json_bytes from_slice bytes path ≡ ok lease)
      ↔ ((from_slice bytes ≡ ok lease) × IsValid lease)
unfolding from_json_bytes
from_json_bytes_iff from_slice bytes path lease = elim (Result-cases (from_slice bytes)) [
  | inl (l, e) ↦ rw e (
    λ h.
        let same = validated_same l lease h in
        (ap ok same, rw same at ((validated_iff l l).0 (rw (← same) at h))),
    λ (f, v). let same : l ≡ lease = cc in rw same ((validated_iff lease lease).1 v),
  )
  | inr (m, e) ↦ rw e ((λ h. cc), λ (f, v). cc)
]

-- A path may be written exactly if it is not empty, some allowed pattern matches it and no forbidden
-- one does: a forbidden pattern wins over an allowed one.
pub matches_path_iff :
    (lease : WorktreeLease) (path : Str)
    → (matches_path lease path ≡ true) ↔ (
        (path ≢ [])
        × Any (λ pat. glob_match pat path ≡ true) lease.allowed_paths
        × ¬ Any (λ pat. glob_match pat path ≡ true) lease.forbidden_paths)
unfolding matches_path
matches_path_iff lease [] = ground arith
matches_path_iff lease (c ∷ path) = ground (
  arith,
  any_iff (λ pat. glob_match pat (c ∷ path)) lease.forbidden_paths,
  any_iff (λ pat. glob_match pat (c ∷ path)) lease.allowed_paths,
)

-- A lease has run out at a moment exactly if it has an expiry, both texts are time stamps, and the
-- moment is strictly later; a text that does not parse never makes a lease run out.
pub is_expired_iff :
    (lease : WorktreeLease) (now : Str)
    → (is_expired lease now ≡ true) ↔ (
        (exp : Str) × (exp_secs : ℤ) × (now_secs : ℤ) × (lease.expires_at ≡ some exp)
        × (rfc3339_to_unix exp ≡ some exp_secs)
        × (rfc3339_to_unix now ≡ some now_secs)
        × (ltb_ℤ exp_secs now_secs ≡ true))
unfolding is_expired is_after
is_expired_iff lease now = (forth, λ (exp, e, n, h, he, hn, lt). rw (h, is_after, hn, he) lt)
  where
    forth :
        is_expired lease now ≡ true
        → (exp : Str) × (exp_secs : ℤ) × (now_secs : ℤ) × (lease.expires_at ≡ some exp)
          × (rfc3339_to_unix exp ≡ some exp_secs)
          × (rfc3339_to_unix now ≡ some now_secs)
          × (ltb_ℤ exp_secs now_secs ≡ true)
    forth h = elim (Option-cases lease.expires_at) [
      | inl no_expiry ↦ absurd (cc (rw (no_expiry, is_expired) at h))
      | inr (exp, e) ↦ elim (Option-cases (rfc3339_to_unix now)) [
        | inl no_now ↦ absurd (cc (rw (e, is_expired, no_now, is_after) at h))
        | inr (n, en) ↦ elim (Option-cases (rfc3339_to_unix exp)) [
          | inl no_exp ↦ absurd (cc (rw (e, is_expired, en, no_exp, is_after) at h))
          | inr (x, ex) ↦ (exp, x, n, e, ex, en, rw (e, is_expired, en, ex, is_after) at h)
        ]
      ]
    ]

path_starts_with_iff :
    (path base : List Str)
    → (path_starts_with path base ≡ true) ↔ ((below : List Str) × (path ≡ base ++ below))
unfolding path_starts_with
path_starts_with_iff path [] = (λ h. (path, refl), λ (_, e). refl)
path_starts_with_iff [] (b ∷ base) = ((λ h. cc), λ (below, e). cc)
path_starts_with_iff (c ∷ path) (b ∷ base) = (
  λ h.
      let (below, e) = (path_starts_with_iff path base).0 (ground arith) in
      (below, ap₂ ◌∷◌ ((str_eq_iff c b).0 (ground arith)) e),
  λ (below, e).
      let tail : path ≡ base ++ below = cc in
      ground (arith, (str_eq_iff c b).1 (cc), (path_starts_with_iff path base).1 (below, tail)),
)

-- A working directory is inside the lease's worktree exactly if both resolve, and the resolved
-- directory lies in the resolved worktree, component by component.
pub matches_cwd_iff :
    (canonicalize : Str → Option (List Str)) (lease : WorktreeLease) (cwd : Str)
    → (matches_cwd canonicalize lease cwd ≡ true) ↔ (
        (root : List Str) × (below : List Str) × (canonicalize lease.worktree ≡ some root)
        × (canonicalize cwd ≡ some (root ++ below)))
unfolding matches_cwd
matches_cwd_iff canonicalize lease cwd = (
  λ h. elim (Option-cases (canonicalize cwd)) [
    | inl gone ↦ absurd (cc (rw (gone, matches_cwd) at h))
    | inr (path, here) ↦ elim (Option-cases (canonicalize lease.worktree)) [
      | inl gone ↦ absurd (cc (rw (here, gone, matches_cwd) at h))
      | inr (root, there) ↦
          let (below, e) =
            (path_starts_with_iff path root).0 (rw (here, there, matches_cwd) at h) in
          (root, below, there, here ∙ ap some e)
    ]
  ],
  λ (root, below, there, here).
      rw (here, there, matches_cwd) ((path_starts_with_iff (root ++ below) root).1 (below, refl)),
)

now_rfc3339-valid : (secs : ℕ) → secs < year_10000 → is_valid_rfc3339 (now_rfc3339 secs) ≡ true
unfolding now_rfc3339
now_rfc3339-valid secs h = is_valid_rfc3339-unix_to_rfc3339 secs h

-- What an emitter has to be given.
pub record CanEmit (args : LeaseEmitArgs) (worker : Worker) : Type 0 where
  pub worker_given : args.worker ≡ some worker
  pub task : is_valid_task_id args.task_id ≡ true
  pub branch_given : args.branch ≢ []
  pub expires : IsOptionalStamp args.expires_at

lease_of-IsValid :
    (args : LeaseEmitArgs) (worker : Worker) (secs : ℕ)
    → secs < year_10000
    → CanEmit args worker
    → IsValid (lease_of args worker secs)
unfolding lease_of
lease_of-IsValid args worker secs h c = record {
  version = refl;
  task = c.task;
  created = now_rfc3339-valid secs h;
  expires = c.expires;
}

into_lease-forth :
    (args : LeaseEmitArgs) (secs : ℕ) (lease : WorktreeLease) (worker : Worker)
    → args.worker ≡ some worker
    → is_empty args.branch ≡ false
    → (validate_self (lease_of args worker secs) >> ok (lease_of args worker secs)) ≡ ok lease
    → (worker : Worker) × CanEmit args worker × (lease ≡ lease_of args worker secs)
unfolding lease_of
into_lease-forth args secs lease worker given branch e =
    let same = validated_same (lease_of args worker secs) lease e in
    let v = (validated_iff lease lease).0 (rw same at e) in
    let w : IsValid (lease_of args worker secs) = rw same v in
    (
      worker,
      record {
        worker_given = given;
        task = w.task;
        branch_given = λ none. cc (branch, ap is_empty none);
        expires = w.expires;
      },
      sym same,
    )

not-empty : (s : Str) → s ≢ [] → is_empty s ≡ false
not-empty [] h = absurd (h refl)
not-empty (c ∷ s) h = refl

task_id-not-empty : (s : Str) → is_valid_task_id s ≡ true → is_empty s ≡ false
unfolding is_valid_task_id
task_id-not-empty [] h = cc
task_id-not-empty (c ∷ s) h = refl

-- With a clock before the year 10000, a lease is emitted exactly if a worker, a well-formed task id
-- and a branch are given and the expiry, if any, parses; it is then the lease of these arguments.
pub into_lease_iff :
    (args : LeaseEmitArgs) (secs : ℕ) (lease : WorktreeLease)
    → secs < year_10000
    → (into_lease args secs ≡ ok lease)
      ↔ ((worker : Worker) × CanEmit args worker × (lease ≡ lease_of args worker secs))
unfolding into_lease lease_of
into_lease_iff args secs lease h = (
  λ e. elim (Option-cases args.worker) [
    | inl no_worker ↦ absurd (cc (rw (no_worker, into_lease) at e))
    | inr (worker, given) ↦ elim (Bool-cases (is_empty args.task_id)) [
      | inl no_task ↦ absurd (cc (rw (given, no_task, into_lease) at e))
      | inr task ↦ elim (Bool-cases (is_empty args.branch)) [
        | inl no_branch ↦ absurd (cc (rw (given, task, no_branch, into_lease) at e))
        | inr branch ↦
            into_lease-forth args secs lease worker given branch
              (rw (given, task, branch, into_lease) at e)
      ]
    ]
  ],
  λ (worker, c, e).
      rw
        (
          e,
          c.worker_given,
          task_id-not-empty args.task_id c.task,
          not-empty args.branch c.branch_given,
        )
        ((validated_iff (lease_of args worker secs) (lease_of args worker secs)).1
          (lease_of-IsValid args worker secs h c)),
)
