-- ===== src/Tests/Pool.antt =====
-- Runs of wtpool/src/pool.rs on a machine with one slot, whose state says whether it is released.
use mcp_tools.Prelude.{
  ◌≡◌, ◌⊎◌, refl, ap, Bool, true, false, none, some, [], ◌∷◌, if◌then◌else◌, any, Str, str, str_eq,
  starts_with, split, join_path,
}
use mcp_tools.Prelude.Result.{Result, ok}
use mcp_tools.Wtpool.Lease.Contract.{path_starts_with}
use mcp_tools.Wtpool.Pool.{System, Head, pool_root, components, any_dirty, is_dirty, main_tip_of}
use mcp_tools.Wtpool.Pool.Gates.{Checked, is_reachable_from, refuse_dirty, refuse_unmerged, gates}
use mcp_tools.Wtpool.Pool.Release.{
  git_step, drop_branch, verify_post_release, clean_slot, release_slot, pool_release,
}
use mcp_tools.Wtpool.Pool.Release.Safety.{
  IsSlot, IsMerged, IsPristine, pool_release-keeps_work, pool_release-IsPristine,
}
use mcp_tools.Wtpool.Pool.Acquire.{Acquired}

abbrev slot : Str
slot = str "/r/.claude/worktrees/pool/wt-01"

abbrev main_head : Head
main_head = record {
  is_branch = true;
  name = some (str "refs/heads/main");
  shorthand = some (str "main");
  commit = ok (str "c1");
}

abbrev slot_head : Bool → Head
slot_head false = record {
  is_branch = true;
  name = some (str "refs/heads/topic");
  shorthand = some (str "topic");
  commit = ok (str "c0");
}
slot_head true = record { is_branch = false; name = none; shorthand = none; commit = ok (str "c1") }

abbrev machine : System Bool
machine = record {
  canonicalize = λ path w. none;
  is_dir = λ path w. true;
  read_slots = λ path w. ok (slot ∷ []);
  open_slot = λ path w. ok tt;
  open_repo = λ path w. ok tt;
  head = λ path w. ok (if str_eq path slot then slot_head w else main_head);
  statuses = λ path w. ok (some (str ".cargo/config.toml") ∷ []);
  ahead = λ path a b w. ok 1;
  revwalk = λ path from w. some (str "c1" ∷ str "c0" ∷ []);
  find_commit = λ path oid w. ok tt;
  worktrees = λ path w. ok (some (str "wt-01") ∷ none ∷ []);
  find_worktree = λ path name w. ok slot;
  git = λ dir args w. (ok (record { success = true; stderr = [] }), true);
  try_lock = λ path w. (true, w);
  unlock = λ path w. w;
}

released : pool_release machine (str "/r") slot false false ≡ (ok slot, true)
unfolding pool_release gates pool_root components path_starts_with starts_with refuse_dirty
    refuse_unmerged is_dirty any_dirty is_reachable_from main_tip_of any release_slot clean_slot
    git_step drop_branch verify_post_release str_eq split join_path
released = refl

pool_release-keeps_work_example :
    ((pool_release machine (str "/r") slot false false).1 ≡ false)
    ⊎ ((c : Checked) × (gates machine (str "/r") slot false false ≡ ok c)
        × IsSlot machine (str "/r") c false
        × (is_dirty machine c.canon false ≡ ok false)
        × IsMerged machine (str "/r") c false)
pool_release-keeps_work_example = pool_release-keeps_work machine (str "/r") slot false

pool_release-IsPristine_example :
    (c : Checked) × (slot ≡ c.canon)
    × IsSlot machine (str "/r") c false
    × IsPristine machine slot c.main_tip (pool_release machine (str "/r") slot false false).1
pool_release-IsPristine_example =
    pool_release-IsPristine machine (str "/r") slot false false slot (ap (λ r. r.0) released)

abbrev acquired : Acquired
acquired = record { path = slot; base_sha = str "c1"; branch = some (str "next") }

abbrev parse_oid : Str → Result Str Str
parse_oid s = ok s
