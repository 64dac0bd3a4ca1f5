-- ===== src/Wtpool/Pool/Acquire.antt =====
-- `pool_acquire` of wtpool/src/pool.rs. The questions before the first lock read one state; between
-- them and a lock other processes may run, which is in the state that `try_lock` gives.
pub mod Safety
use mcp_tools.Prelude.{
  ℕ, Bool, true, false, not, ◌&&◌, ◌||◌, Option, none, some, List, [], ◌∷◌, ◌++◌, if◌then◌else◌,
  is_empty, Str, str, str_eq,
}
use mcp_tools.Prelude.Result.{Result, ok, err, ◌>>=◌, ◌>>◌, ensure, map_err}
use mcp_tools.Wtpool.Pool.{
  System, Head, PoolError, failed, checked_out, exhausted, lost_race, SlotState, free, in_use,
  SlotInventory, main_tip_of, classify_slot, inventory,
}
use mcp_tools.Wtpool.Pool.BranchName.{validate_branch_name}
use mcp_tools.Wtpool.Pool.Release.{git_step}

abbrev is_name : Str → Option Str → Bool
is_name target none = false
is_name target (some name) = str_eq name target

abbrev slots_of : List (Str × (Result Str PoolError × ℕ)) → List Str
slots_of [] = []
slots_of ((slot, _) ∷ rest) = slot ∷ slots_of rest

abbrev valid_name : Option Str → Result (Unit {0}) PoolError
valid_name none = ok tt
valid_name (some name) = validate_branch_name name

pub record Acquired : Type 0 where
  pub path : Str
  pub base_sha : Str
  pub branch : Option Str

module _ {W : Type 0} (sys : System W) (parse_oid : Str → Result Str Str) where
  -- A repository whose head cannot be read holds no branch.
  unfoldable pub holds_branch : Str → Str → W → Bool
  holds_branch repo target w = elim (sys.head repo w) [
    | err e ↦ false
    | ok head ↦ is_name target head.name
  ]

  abbrev worktree_holds : Str → Str → Str → W → Bool
  worktree_holds repo_root name target w = elim (sys.find_worktree repo_root name w) [
    | err e ↦ false
    | ok path ↦ elim (sys.open_slot path w) [ err e ↦ false | ok u ↦ holds_branch path target w ]
  ]

  -- A worktree without a name is passed over.
  unfoldable pub some_worktree_holds : Str → List (Option Str) → Str → W → Bool
  unfolding holds_branch
  some_worktree_holds repo_root [] target w = false
  some_worktree_holds repo_root (none ∷ names) target w =
      some_worktree_holds repo_root names target w
  some_worktree_holds repo_root (some name ∷ names) target w =
      worktree_holds repo_root name target w || some_worktree_holds repo_root names target w

  abbrev among_worktrees : Str → Str → W → Result (List (Option Str)) Str → Bool
  among_worktrees repo_root target w (err e) = false
  among_worktrees repo_root target w (ok names) = some_worktree_holds repo_root names target w

  unfoldable pub branch_in_use : Str → Str → W → Bool
  unfolding some_worktree_holds holds_branch
  branch_in_use repo_root branch_name w =
      let target = str "refs/heads/" ++ branch_name in
      holds_branch repo_root target w
      || among_worktrees repo_root target w (sys.worktrees repo_root w)

  -- The base that is asked for, if it is a commit of the repository, or the tip of main.
  unfoldable pub resolve_base : Str → Option Str → W → Result Str PoolError
  resolve_base repo_root none w = main_tip_of sys repo_root (str "resolve main tip") w
  resolve_base repo_root (some s) w = do
    oid ← map_err (failed (str "not a valid hex oid")) (parse_oid s)
    map_err (failed (str "not in repo")) (sys.find_commit repo_root oid w)
    ok s

  abbrev refuse_branch_in_use : Str → Option Str → W → Result (Unit {0}) PoolError
  refuse_branch_in_use repo_root none w = ok tt
  refuse_branch_in_use repo_root (some name) w =
      ensure (not (branch_in_use repo_root name w)) (checked_out name)

  -- The base, and the slots that were free.
  unfoldable pub candidates : Str → Option Str → Option Str → W → Result (Str × List Str) PoolError
  candidates repo_root branch_name base_sha w = do
    valid_name branch_name
    map_err (failed (str "open repo")) (sys.open_repo repo_root w)
    base ← resolve_base repo_root base_sha w
    refuse_branch_in_use repo_root branch_name w
    inv ← inventory sys repo_root w
    ensure (not (is_empty inv.free)) (exhausted (slots_of inv.in_use))
    ok (base, inv.free)

  unfoldable pub checkout_command : Option Str → Str → List Str
  checkout_command none base = str "checkout" ∷ str "--detach" ∷ base ∷ []
  checkout_command (some name) base = str "checkout" ∷ str "-b" ∷ name ∷ base ∷ []

  abbrev outcome : Str → Str → Option Str → Result (Unit {0}) PoolError → Result Acquired PoolError
  outcome slot base branch_name (ok u) =
      ok (record { path = slot; base_sha = base; branch = branch_name })
  outcome slot base branch_name (err e) = err e

  -- Under the lock: the slot goes to the base, and the lock is let go, also when that fails.
  unfoldable pub claim : Str → Str → Option Str → W → Result Acquired PoolError × W
  claim slot base branch_name w =
      let (done, after) = git_step sys slot (checkout_command branch_name base) w in
      (outcome slot base branch_name done, sys.unlock slot after)

  -- Whether the slot that is now locked is still free.
  unfoldable pub still_free : Str → Str → W → Result Bool PoolError
  still_free repo_root slot w = do
    main_tip ← main_tip_of sys repo_root (str "re-resolve main tip") w
    ok (elim (classify_slot sys slot main_tip w) [
      | ok state ↦ elim state [ free ↦ true | in_use branch ahead ↦ false ]
      | err e ↦ false
    ])

  -- The loop over the free slots: a slot that is locked by another or no longer free is passed over.
  unfoldable pub try_slots :
      List Str → List Str → Str → Str → Option Str → W → Result Acquired PoolError × W
  try_slots all [] repo_root base branch_name w = (err (lost_race all), w)
  try_slots all (slot ∷ slots) repo_root base branch_name w =
      let pass_over = try_slots all slots repo_root base branch_name in
      let (locked, held) = sys.try_lock slot w in
      elim locked [
        | false ↦ pass_over held
        | true ↦ elim (still_free repo_root slot held) [
          | err e ↦ (err e, sys.unlock slot held)
          | ok is_free ↦ elim is_free [
            | true ↦ claim slot base branch_name held
            | false ↦ pass_over (sys.unlock slot held)
          ]
        ]
      ]

  unfoldable pub pool_acquire : Str → Option Str → Option Str → W → Result Acquired PoolError × W
  pool_acquire repo_root branch_name base_sha w =
      elim (candidates repo_root branch_name base_sha w) [
        | err e ↦ (err e, w)
        | ok found ↦ try_slots found.1 found.1 repo_root found.0 branch_name w
      ]
