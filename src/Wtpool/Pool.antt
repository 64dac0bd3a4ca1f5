-- ===== src/Wtpool/Pool.antt =====
-- wtpool/src/pool.rs: the census of the pool's slots. What the code asks of git2, of the file system
-- and of the `git` command is an interface over the state of the machine; a path is its text, and
-- `components` cuts it as `Path::components` does. Errors keep what their messages report.
pub mod BranchName
pub mod Gates
pub mod Release
pub mod Acquire
use mcp_tools.Prelude.{
  ℕ, Bool, true, false, not, ◌&&◌, ◌||◌, Option, none, some, List, [], ◌∷◌, ◌++◌, ◌==◌,
  if◌then◌else◌, is_empty, Str, str, str_eq, starts_with, split, join_path,
}
use mcp_tools.Prelude.Result.{Result, ok, err, ◌>>=◌, ◌>>◌, ensure, map_err}

-- `repo.head()`: the reference, and the commit that it peels to.
pub record Head : Type 0 where
  pub is_branch : Bool
  pub name : Option Str
  pub shorthand : Option Str
  pub commit : Result Str Str

pub record Output : Type 0 where
  pub success : Bool
  pub stderr : Str

-- The machine: each question reads the state, and `git` and `try_lock` change it. The lock of a slot
-- is taken by `try_lock`, in whose new state other processes may have run, and let go by `unlock`.
pub record System (W : Type 0) : Type 0 where
  pub canonicalize : Str → W → Option Str
  pub is_dir : Str → W → Bool
  -- The directories of the pool whose name starts with `wt-`, sorted.
  pub read_slots : Str → W → Result (List Str) Str
  pub open_slot : Str → W → Result (Unit {0}) Str
  pub open_repo : Str → W → Result (Unit {0}) Str
  pub head : Str → W → Result Head Str
  pub statuses : Str → W → Result (List (Option Str)) Str
  pub ahead : Str → Str → Str → W → Result ℕ Str
  pub revwalk : Str → Str → W → Option (List Str)
  pub find_commit : Str → Str → W → Result (Unit {0}) Str
  pub worktrees : Str → W → Result (List (Option Str)) Str
  pub find_worktree : Str → Str → W → Result Str Str
  pub git : Str → List Str → W → Result Output Str × W
  pub try_lock : Str → W → Bool × W
  pub unlock : Str → W → W

pub data PoolError : Type 0 where
  failed : (step message : Str) → PoolError
  not_found : (pool : Str) → PoolError
  empty_name : PoolError
  leading_dash : (name : Str) → PoolError
  double_dot : (name : Str) → PoolError
  disallowed_character : (name : Str) → (c : ℕ) → PoolError
  checked_out : (name : Str) → PoolError
  exhausted : (in_use : List Str) → PoolError
  lost_race : (free : List Str) → PoolError
  git_failed : (command : List Str) → (stderr : Str) → PoolError
  not_absolute : (path : Str) → PoolError
  outside_pool : (path pool : Str) → PoolError
  dirty : (slot : Str) → PoolError
  unmerged : (slot branch : Str) → (ahead : ℕ) → PoolError
  still_on_branch : (slot branch : Str) → PoolError
  wrong_tip : (slot tip main_tip : Str) → PoolError
  still_dirty : (slot : Str) → PoolError

unfoldable pub pool_root : Str → Str
pool_root repo_root =
    join_path (join_path (join_path repo_root (str ".claude")) (str "worktrees")) (str "pool")

abbrev pub unwrap_or : Option Str → Str → Str
unwrap_or none d = d
unwrap_or (some s) d = s

abbrev is_component : Str → Bool
is_component c = not (is_empty c || str_eq c (str "."))

abbrev keep_components : List Str → List Str
keep_components [] = []
keep_components (c ∷ cs) =
    let rest = keep_components cs in if is_component c then c ∷ rest else rest

-- The components of an absolute path, behind the root.
unfoldable pub components : Str → List Str
components path = keep_components (split b'/' path)

-- What the template of the worktrees leaves untracked by design.
abbrev is_cargo : Str → Bool
is_cargo path = str_eq path (str ".cargo") || starts_with (str ".cargo/") path

-- An entry without a path is dirty.
unfoldable pub any_dirty : List (Option Str) → Bool
any_dirty [] = false
any_dirty (none ∷ entries) = true
any_dirty (some path ∷ entries) =
    let rest = any_dirty entries in if is_cargo path then rest else true

pub data SlotState : Type 0 where
  free : SlotState
  in_use : (branch : Str) → (ahead : ℕ) → SlotState

pub record SlotInventory : Type 0 where
  pub free : List Str
  pub in_use : List (Str × (Result Str PoolError × ℕ))

module _ {W : Type 0} (sys : System W) where
  unfoldable pub is_dirty : Str → W → Result Bool PoolError
  unfolding any_dirty
  is_dirty repo w = do
    entries ← map_err (failed (str "statuses")) (sys.statuses repo w)
    ok (any_dirty entries)

  -- The commit that the main checkout's `HEAD` peels to.
  unfoldable pub main_tip_of : Str → Str → W → Result Str PoolError
  main_tip_of repo_root step w = do
    head ← map_err (failed step) (sys.head repo_root w)
    map_err (failed step) head.commit

  abbrev branch_of : Head → Str
  branch_of head =
      if head.is_branch then unwrap_or head.shorthand (str "<unknown>") else str "<detached>"

  abbrev or_zero : Result ℕ Str → ℕ
  or_zero (ok n) = n
  or_zero (err e) = 0

  abbrev in_use_state : Str → Head → Str → W → Result SlotState PoolError
  in_use_state slot head main_tip w = do
    head_oid ← map_err (failed (str "head peel")) head.commit
    ok (
        in_use (branch_of head)
          (if str_eq head_oid main_tip then 0 else or_zero (sys.ahead slot head_oid main_tip w)))

  unfoldable pub classify_slot : Str → Str → W → Result SlotState PoolError
  unfolding is_dirty
  classify_slot slot main_tip w = do
    map_err (failed (str "open")) (sys.open_slot slot w)
    head ← map_err (failed (str "head")) (sys.head slot w)
    unclean ← is_dirty slot w
    if not head.is_branch && not unclean then ok free else in_use_state slot head main_tip w

  -- A slot that cannot be classified is in use, with its error in the place of a branch.
  abbrev add_slot : Str → Result SlotState PoolError → SlotInventory → SlotInventory
  add_slot slot (ok free) inv = record { free = slot ∷ inv.free; in_use = inv.in_use }
  add_slot slot (ok (in_use branch ahead)) inv = record {
    free = inv.free;
    in_use = (slot, (ok branch, ahead)) ∷ inv.in_use;
  }
  add_slot slot (err e) inv = record { free = inv.free; in_use = (slot, (err e, 0)) ∷ inv.in_use }

  unfoldable pub classify_all : List Str → Str → W → SlotInventory
  unfolding classify_slot
  classify_all [] main_tip w = record { free = []; in_use = [] }
  classify_all (slot ∷ slots) main_tip w =
      add_slot slot (classify_slot slot main_tip w) (classify_all slots main_tip w)

  unfoldable pub inventory : Str → W → Result SlotInventory PoolError
  unfolding classify_all main_tip_of pool_root
  inventory repo_root w = do
    ensure (sys.is_dir (pool_root repo_root) w) (not_found (pool_root repo_root))
    map_err (failed (str "open repo")) (sys.open_repo repo_root w)
    main_tip ← main_tip_of repo_root (str "git2: main HEAD oid") w
    entries ← map_err (failed (str "read pool root")) (sys.read_slots (pool_root repo_root) w)
    ok (classify_all entries main_tip w)
