-- ===== src/Wtpool/Pool/Gates.antt =====
-- The gates of `pool_release` in wtpool/src/pool.rs. They only read, all in one state of the machine.
use mcp_tools.Prelude.{
  Bool, true, false, not, ◌&&◌, ◌||◌, none, some, ltb, if◌then◌else◌, any, Str, str, str_eq,
  starts_with,
}
use mcp_tools.Prelude.Result.{Result, ok, ◌>>=◌, ◌>>◌, ensure, map_err}
use mcp_tools.Wtpool.Lease.Contract.{path_starts_with}
use mcp_tools.Wtpool.Pool.{
  System, Head, PoolError, failed, not_absolute, outside_pool, dirty, unmerged, pool_root,
  unwrap_or, components, is_dirty, main_tip_of,
}

-- What the gates hand on: the slot's canonical path, the tip of main and the slot's head.
pub record Checked : Type 0 where
  pub canon : Str
  pub main_tip : Str
  pub head : Head

module _ {W : Type 0} (sys : System W) where
  unfoldable pub is_reachable_from : Str → Str → Str → W → Bool
  unfolding any
  is_reachable_from repo commit from w = elim (sys.revwalk repo from w) [
    | none ↦ false
    | some oids ↦ any (λ oid. str_eq oid commit) oids
  ]

  abbrev pub canonical : Str → W → Str
  canonical path w = unwrap_or (sys.canonicalize path w) path

  abbrev refuse_ahead : Str → Str → Head → Str → Str → W → Result (Unit {0}) PoolError
  refuse_ahead repo_root canon head head_oid main_tip w = do
    ahead ← map_err (failed (str "graph_ahead_behind")) (sys.ahead canon head_oid main_tip w)
    ensure (not (ltb 0 ahead && not (is_reachable_from repo_root head_oid main_tip w)))
        (unmerged canon (unwrap_or head.shorthand (str "<unknown>")) ahead)

  -- A branch with commits that main does not have is refused.
  unfoldable pub refuse_unmerged : Str → Str → Head → Str → W → Result (Unit {0}) PoolError
  refuse_unmerged repo_root canon head main_tip w = do
    head_oid ← map_err (failed (str "slot head peel")) head.commit
    if str_eq head_oid main_tip
        then ok tt
        else refuse_ahead repo_root canon head head_oid main_tip w

  unfoldable pub refuse_dirty : Str → W → Result (Unit {0}) PoolError
  refuse_dirty canon w = do unclean ← is_dirty sys canon w; ensure (not unclean) (dirty canon)

  abbrev unless : Bool → Result (Unit {0}) PoolError → Result (Unit {0}) PoolError
  unless true gate = ok tt
  unless false gate = gate

  unfoldable pub gates : Str → Str → Bool → W → Result Checked PoolError
  gates repo_root path force w = do
    ensure (starts_with (str "/") path) (not_absolute path)
    let canon = canonical path w
    let pool_canon = canonical (pool_root repo_root) w
    ensure (path_starts_with (components canon) (components pool_canon))
        (outside_pool canon pool_canon)
    map_err (failed (str "open slot")) (sys.open_slot canon w)
    map_err (failed (str "open repo")) (sys.open_repo repo_root w)
    main_tip ← main_tip_of sys repo_root (str "resolve main tip") w
    unless force (refuse_dirty canon w)
    head ← map_err (failed (str "slot head")) (sys.head canon w)
    unless (force || not head.is_branch) (refuse_unmerged repo_root canon head main_tip w)
    ok (record { canon = canon; main_tip = main_tip; head = head })
