-- ===== src/Wtpool/Pool/Acquire/Safety.antt =====
-- What an acquired slot is.
use mcp_tools.Prelude.{◌≡◌, inr, true, false, Option, none, some, List, ◌∷◌, In, Str}
use mcp_tools.Prelude.Result.{Result, ok}
use mcp_tools.Wtpool.Pool.{System}
use mcp_tools.Wtpool.Pool.BranchName.{validate_branch_name}
use mcp_tools.Wtpool.Pool.Release.{git_step}
use mcp_tools.Wtpool.Pool.Acquire.{Acquired, branch_in_use, checkout_command, still_free}

module _ {W : Type 0} (sys : System W) (parse_oid : Str → Result Str Str) where
  -- The slot was free in a state in which its lock was held, and in that state its checkout went well.
  pub record IsClaimed (repo_root : Str) (slot base : Str) (branch : Option Str) : Type 0 where
    pub before : W
    pub held : W
    pub locked : sys.try_lock slot before ≡ (true, held)
    pub still : still_free sys parse_oid repo_root slot held ≡ ok true
    pub done : (git_step sys slot (checkout_command sys parse_oid branch base) held).0 ≡ ok tt

  pub record IsGiven (repo_root base : Str) (branch : Option Str) (slots : List Str) (a : Acquired)
      : Type 0 where
    pub one_of : In a.path slots
    pub claimed : IsClaimed repo_root a.path base branch
    pub same_base : a.base_sha ≡ base
    pub same_branch : a.branch ≡ branch

  abbrev later :
      (repo_root base : Str) (branch : Option Str) (slot : Str) (slots : List Str) (a : Acquired)
      → IsGiven repo_root base branch slots a
      → IsGiven repo_root base branch (slot ∷ slots) a
  later repo_root base branch slot slots a g = record {
    one_of = inr g.one_of;
    claimed = g.claimed;
    same_base = g.same_base;
    same_branch = g.same_branch;
  }

  abbrev pub IsUnused : Str → Option Str → W → Type 0
  IsUnused repo_root none w = Unit
  IsUnused repo_root (some name) w =
      (validate_branch_name name ≡ ok tt) × (branch_in_use sys parse_oid repo_root name w ≡ false)
