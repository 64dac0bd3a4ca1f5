-- ===== src/Wtpool/Merge/Aborted.antt =====
-- A rebase that is given up is aborted.
use mcp_tools.Prelude.{
  ◌≡◌, refl, Bool, true, false, Option, none, some, List, [], ◌∷◌, if◌then◌else◌, Str, str,
  join_path,
}
use mcp_tools.Prelude.Result.{Result, ok, err, map_err}
use mcp_tools.Prelude.Action.{behind, ◌>>=◌, reads, pure}
use mcp_tools.Wtpool.CumulativeMd.{ConflictKind, resolve_cumulative_md_conflict}
use mcp_tools.Wtpool.Merge.{MergeError, cumulative_md_rel, file_failed}
use mcp_tools.Wtpool.Merge.Host.{Host, Command, State, Run, success, git, git_as}
use mcp_tools.Wtpool.Merge.Host.Rebase.{
  RebaseOutcome, clean, clean_with_auto_resolve, conflict, write_file, continue_rebase, on_conflict,
  list_conflicts, git_ignored, abort_with, auto_resolve, run_rebase_main,
}

abbrev pub latest : List Command → Option Command
latest [] = none
latest (c ∷ cs) = some c

abbrev pub abort_of : Str → Command
abort_of worktree = record {
  allow_main_commit = false;
  dir = worktree;
  args = str "rebase" ∷ str "--abort" ∷ [];
}

module _ {W : Type 0} (worktree : Str) where
  -- If the outcome is a conflict, the last command was the abort.
  abbrev IsAborting : Run W RebaseOutcome → Type 0
  IsAborting m =
      (s : State W) (kind : ConflictKind) (files : List Str)
      → (m s).0 ≡ ok (conflict kind files)
      → latest (m s).1.ran ≡ some (abort_of worktree)

  behind-IsAborting :
      {A : Type 0} (r : Result A MergeError) (f : A → Run W RebaseOutcome)
      → ((a : A) → IsAborting (f a))
      → IsAborting (λ s. behind r f s)
  behind-IsAborting (ok a) f k s kind files h = k a s kind files h
  behind-IsAborting (err e) f k s kind files h = absurd cc

  IsAborting-bind :
      {A : Type 0} (m : Run W A) (f : A → Run W RebaseOutcome)
      → ((a : A) → IsAborting (f a))
      → IsAborting (m >>= f)
  IsAborting-bind m f k s = behind-IsAborting (m s).0 f k (m s).1

  IsAborting-if :
      (b : Bool) (m k : Run W RebaseOutcome)
      → IsAborting m
      → IsAborting k
      → IsAborting (if b then m else k)
  IsAborting-if true m k h g = h
  IsAborting-if false m k h g = g

  pure_clean : IsAborting (pure clean)
  pure_clean s kind files h = absurd cc

  pure_resolved : IsAborting (pure clean_with_auto_resolve)
  pure_resolved s kind files h = absurd cc

module _ {W : Type 0} (host : Host W) (worktree : Str) where
  abort_with-IsAborting : (o : RebaseOutcome) → IsAborting worktree (abort_with host worktree o)
  unfolding abort_with git_ignored git_as
  abort_with-IsAborting o s kind files h = refl

  continue_rebase-IsAborting :
      (files : List Str) (resolved : Str)
      → IsAborting worktree (continue_rebase host worktree files resolved)
  unfolding continue_rebase
  continue_rebase-IsAborting files resolved =
      IsAborting-bind worktree (write_file host (join_path worktree cumulative_md_rel) resolved) _
        λ u.
          IsAborting-bind worktree (git host worktree (str "add" ∷ cumulative_md_rel ∷ [])) _
            λ added.
              IsAborting-bind worktree (git host worktree (str "rebase" ∷ str "--continue" ∷ [])) _
                λ cont.
                  IsAborting-if worktree (success cont) _ _ (pure_resolved worktree)
                    (abort_with-IsAborting _)

  resolution-IsAborting :
      (files : List Str) (r : Result Str ConflictKind)
      → IsAborting worktree (elim r [
        | ok resolved ↦ continue_rebase host worktree files resolved
        | err kind ↦ abort_with host worktree (conflict kind files)
      ])
  resolution-IsAborting files (ok resolved) = continue_rebase-IsAborting files resolved
  resolution-IsAborting files (err kind) = abort_with-IsAborting (conflict kind files)

  auto_resolve-IsAborting :
      (files : List Str) → IsAborting worktree (auto_resolve host worktree files)
  unfolding auto_resolve
  auto_resolve-IsAborting files =
      let p = join_path worktree cumulative_md_rel in
      IsAborting-bind worktree
        (reads (λ (s : State W). map_err (file_failed p) (host.read_to_string p s.world))) _
        λ body. resolution-IsAborting files (resolve_cumulative_md_conflict body)

  on_conflict-IsAborting :
      (auto : Bool) (files : List Str) → IsAborting worktree (on_conflict host worktree auto files)
  unfolding on_conflict
  on_conflict-IsAborting auto files =
      IsAborting-if worktree _ (auto_resolve host worktree files) (abort_with host worktree _)
        (auto_resolve-IsAborting files) (abort_with-IsAborting _)

  list_conflicts-IsAborting :
      (auto : Bool) → IsAborting worktree (list_conflicts host worktree auto)
  unfolding list_conflicts
  list_conflicts-IsAborting auto =
      IsAborting-bind worktree
        (git host worktree (str "diff" ∷ str "--name-only" ∷ str "--diff-filter=U" ∷ [])) _
        λ unmerged. on_conflict-IsAborting auto _

  -- If the rebase ends in a conflict, its last command was `git rebase --abort` in the worktree.
  pub run_rebase_main-aborts :
      (auto : Bool) (s : State W) (kind : ConflictKind) (files : List Str)
      → (run_rebase_main host worktree auto s).0 ≡ ok (conflict kind files)
      → latest (run_rebase_main host worktree auto s).1.ran ≡ some (abort_of worktree)
  unfolding run_rebase_main
  run_rebase_main-aborts auto =
      IsAborting-bind worktree (git host worktree (str "rebase" ∷ str "main" ∷ [])) _ λ out.
        IsAborting-if worktree (success out) _ _ (pure_clean worktree)
          (list_conflicts-IsAborting auto)
