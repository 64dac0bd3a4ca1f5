-- ===== src/Wtpool/Lease/Contract/Store.antt =====
-- `WorktreeLease::write` and `read_from_file` of wtpool/src/lease.rs. The files are a function from
-- paths to contents. The serializer and the file system's answers are arguments: a temporary file
-- is not among the files until `persist` renames it, and each call of the system may fail.
use mcp_tools.Prelude.{
  Bool-cases, ℕ, ◌≡◌, ◌⊎◌, refl, Bool, not, ◌&&◌, Option, none, some, List, [], ◌∷◌, ◌++◌, arith,
  if◌then◌else◌, Str, str_eq, str_eq_iff, str_eq_refl, inl, inr,
}
use mcp_tools.Prelude.Result.{Result, ok, err, ◌>>=◌, ◌>>◌, ensure, ok_or, map_err, Result-cases}
use mcp_tools.Wtpool.Lease.Contract.{
  WorktreeLease, LeaseError, io, invalid_json, worktree_not_found, validate_self, from_json_bytes,
}
use mcp_tools.Wtpool.Lease.Contract.Checks.{IsValid, validate_self_iff, from_json_bytes_iff}

abbrev pub Files : Type 0
Files = Str → Option (List ℕ)

abbrev pub put : Files → Str → List ℕ → Files
put files path bytes q = if str_eq path q then some bytes else files q

-- What the system answers to the calls of one `write`: `none`, or the message of an error.
pub record Answers : Type 0 where
  pub is_dir : Str → Bool
  pub parent : Str
  pub tmp_path : Str
  pub creates : Option Str
  pub writes_json : Option Str
  pub writes_newline : Option Str
  pub syncs : Option Str
  pub persists : Option Str

abbrev pub step : Option Str → Str → Result (Unit {0}) LeaseError
step none path = ok tt
step (some message) path = err (io path message)

-- From the temporary file to the rename.
unfoldable pub persist : Answers → Str → List ℕ → Result (List ℕ) LeaseError
persist a path json = do
  step a.creates a.parent
  step a.writes_json a.tmp_path
  step a.writes_newline a.tmp_path
  step a.syncs a.tmp_path
  step a.persists path
  ok (json ++ 10 ∷ [])

module _ (to_vec_pretty : WorktreeLease → Result (List ℕ) Str) where
  -- The bytes that are renamed into place, if every step goes well.
  unfoldable pub written : Answers → WorktreeLease → Str → Bool → Result (List ℕ) LeaseError
  written a lease path validate_worktree_exists = do
    ensure (not (validate_worktree_exists && not (a.is_dir lease.worktree)))
        (worktree_not_found lease.worktree)
    validate_self lease
    json ← map_err (invalid_json path) (to_vec_pretty lease)
    persist a path json

  unfoldable pub write :
      Answers → WorktreeLease → Str → Bool → Files → Result (Unit {0}) LeaseError × Files
  unfolding written
  write a lease path validate_worktree_exists files =
      elim (written a lease path validate_worktree_exists) [
        | ok bytes ↦ (ok tt, put files path bytes)
        | err e ↦ (err e, files)
      ]

unfoldable pub read_from_file :
    (List ℕ → Result WorktreeLease Str) → Str → Str → Files → Result WorktreeLease LeaseError
read_from_file from_slice missing path files = do
  bytes ← ok_or (files path) (io path missing)
  from_json_bytes from_slice bytes path

-- What the program relies on of serde: a lease that is written out reads back, also with the line
-- feed behind it.
abbrev pub Serde :
    (WorktreeLease → Result (List ℕ) Str)
    → (List ℕ → Result WorktreeLease Str)
    → WorktreeLease
    → Type 0
Serde to_vec_pretty from_slice lease =
    (json : List ℕ) → to_vec_pretty lease ≡ ok json → from_slice (json ++ 10 ∷ []) ≡ ok lease

persist-ok :
    (a : Answers) (path : Str) (json bytes : List ℕ)
    → persist a path json ≡ ok bytes
    → bytes ≡ json ++ 10 ∷ []
unfolding persist
persist-ok a path json bytes e = ground arith

module _ (to_vec_pretty : WorktreeLease → Result (List ℕ) Str) where
  written-ok :
      (a : Answers) (lease : WorktreeLease) (path : Str) (validate : Bool) (bytes : List ℕ)
      → written to_vec_pretty a lease path validate ≡ ok bytes
      → IsValid lease
        × ((json : List ℕ) × (to_vec_pretty lease ≡ ok json) × (bytes ≡ json ++ 10 ∷ []))
  unfolding written
  written-ok a lease path validate bytes e = elim (Result-cases (to_vec_pretty lease)) [
    | inl (json, s) ↦ (
      ground (arith, validate_self_iff lease),
      (json, s, ground (arith, persist-ok a path json bytes)),
    )
    | inr (message, s) ↦ absurd (ground arith)
  ]

module _ (to_vec_pretty : WorktreeLease → Result (List ℕ) Str)
    (from_slice : List ℕ → Result WorktreeLease Str) (lease : WorktreeLease)
    (serde : Serde to_vec_pretty from_slice lease) where
  read_from_file-put :
      (a : Answers) (path missing : Str) (validate : Bool) (files : Files) (bytes : List ℕ)
      → written to_vec_pretty a lease path validate ≡ ok bytes
      → read_from_file from_slice missing path (put files path bytes) ≡ ok lease
  unfolding read_from_file
  read_from_file-put a path missing validate files bytes e =
      let (valid, (json, serialized, same)) =
        written-ok to_vec_pretty a lease path validate bytes e in
      rw (str_eq_refl path, same)
        ((from_json_bytes_iff from_slice (json ++ 10 ∷ []) path lease).1
          (serde json serialized, valid))

  -- If serde reads back what it writes of the lease: a write that succeeds puts the lease's bytes at
  -- the path, from where they read back as the lease, and leaves every other file as it was; one that
  -- fails leaves every file as it was.
  pub read_from_file-write :
      (a : Answers) (path missing : Str) (validate : Bool) (files : Files)
      → let (result, after) = write to_vec_pretty a lease path validate files in
        ((result ≡ ok tt)
          × (read_from_file from_slice missing path after ≡ ok lease)
          × ((q : Str) → (path ≡ q) ⊎ (after q ≡ files q)))
        ⊎ ((e : LeaseError) × (result ≡ err e) × (after ≡ files))
  unfolding write
  read_from_file-write a path missing validate files =
      elim (Result-cases (written to_vec_pretty a lease path validate)) [
        | inl (bytes, e) ↦
            rw (e, write)
              (inl (
                refl,
                read_from_file-put a path missing validate files bytes e,
                λ q. elim (Bool-cases (str_eq path q)) [
                  | inl same ↦ inl ((str_eq_iff path q).0 same)
                  | inr other ↦ inr (rw other refl)
                ],
              ))
        | inr (m, e) ↦ rw (e, write) (inr (m, refl, refl))
      ]
