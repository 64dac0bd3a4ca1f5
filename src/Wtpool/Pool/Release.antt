-- ===== src/Wtpool/Pool/Release.antt =====
-- `pool_release` of wtpool/src/pool.rs: the gates, which only read, then the steps that change the
-- slot, then the check of what they left.
pub mod Safety
use mcp_tools.Prelude.{
  Bool, true, false, not, Option, none, some, List, [], ◌∷◌, if◌then◌else◌, Str, str, str_eq,
}
use mcp_tools.Prelude.Result.{Result, ok, err, map_err}
use mcp_tools.Prelude.Action.{Action, behind, ◌>>=◌, ◌>>◌, reads}
use mcp_tools.Wtpool.Pool.{
  System, Head, Output, PoolError, failed, git_failed, still_on_branch, wrong_tip, still_dirty,
  unwrap_or, is_dirty,
}
use mcp_tools.Wtpool.Pool.Gates.{Checked, gates}

abbrev succeeded : List Str → Output → Result (Unit {0}) PoolError
succeeded command out = if out.success then ok tt else err (git_failed command out.stderr)

abbrev pub require : Bool → PoolError → Result (Unit {0}) PoolError
require true e = ok tt
require false e = err e

module _ {W : Type 0} (sys : System W) where
  -- A command of git that has to succeed.
  unfoldable pub git_step : Str → List Str → Action W PoolError (Unit {0})
  git_step dir command = do
    out ← λ w. (map_err (failed (str "git")) (sys.git dir command w).0, (sys.git dir command w).1)
    reads (λ w. succeeded command out)

  -- The branch of the slot is deleted from the main checkout, whether that works or not.
  abbrev delete_branch : Str → Option Str → Action W PoolError (Unit {0})
  delete_branch repo_root none w = (ok tt, w)
  delete_branch repo_root (some name) w =
      (ok tt, (sys.git repo_root (str "branch" ∷ str "-D" ∷ name ∷ []) w).1)

  unfoldable pub drop_branch : Str → Head → Action W PoolError (Unit {0})
  drop_branch repo_root head =
      if head.is_branch then delete_branch repo_root head.shorthand else (λ w. (ok tt, w))

  unfoldable pub verify_post_release : Str → Str → Action W PoolError (Unit {0})
  verify_post_release canon main_tip = do
    reads (λ w. map_err (failed (str "post-release open")) (sys.open_slot canon w))
    head ← reads (λ w. map_err (failed (str "post-release head")) (sys.head canon w))
    reads (λ w.
        require (not head.is_branch)
          (still_on_branch canon (unwrap_or head.shorthand (str "<unknown>"))))
    tip ← reads (λ w. map_err (failed (str "post-release peel")) head.commit)
    reads (λ w. require (str_eq tip main_tip) (wrong_tip canon tip main_tip))
    unclean ← reads (is_dirty sys canon)
    reads (λ w. require (not unclean) (still_dirty canon))

  -- The commands that change the slot, and the one that deletes its branch.
  unfoldable pub clean_slot : Str → Checked → Action W PoolError (Unit {0})
  clean_slot repo_root c = do
    git_step c.canon (str "checkout" ∷ str "--detach" ∷ c.main_tip ∷ [])
    git_step c.canon (str "reset" ∷ str "--hard" ∷ c.main_tip ∷ [])
    git_step c.canon (str "clean" ∷ str "-fdx" ∷ str "-e" ∷ str ".cargo" ∷ [])
    drop_branch repo_root c.head

  unfoldable pub release_slot : Str → Checked → Action W PoolError Str
  release_slot repo_root c = do
    clean_slot repo_root c
    verify_post_release c.canon c.main_tip
    reads (λ w. ok c.canon)

  -- The path of the slot, and the state that is left.
  unfoldable pub pool_release : Str → Str → Bool → Action W PoolError Str
  pool_release repo_root path force = do
    c ← reads (gates sys repo_root path force)
    release_slot repo_root c
