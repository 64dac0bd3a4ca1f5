-- ===== src/Wtpool/Merge/Guarded.antt =====
-- When `merge_to_main` may change the repository.
use mcp_tools.Prelude.{
  ◌≡◌, ◌⊎◌, inl, inr, refl, sym, ap, ◌∙◌, Bool, true, false, ◌||◌, List, [], ◌∷◌, ◌++◌, All,
  All-append, if◌then◌else◌, Str, str, str_eq, str_eq_iff, append_assoc, Bool-cases,
}
use mcp_tools.Prelude.Result.{Result, ok, err, Result-cases}
use mcp_tools.Prelude.Action.{behind, ◌>>=◌, reads}
use mcp_tools.Wtpool.Merge.{MergeRequest, MergeError, validate_request, validate_voices}
use mcp_tools.Wtpool.Merge.Host.{
  Host, Command, State, Run, git, git_as, git_output, head_sha, current_branch,
  branch_already_merged, branch_changed_paths,
}
use mcp_tools.Wtpool.Merge.Host.Gates.{branch_carveout_eligible, enforce_lease_compliance}
use mcp_tools.Wtpool.Merge.Host.Rebase.{write_file}
use mcp_tools.Wtpool.Merge.Host.Orchestration.{
  bypass_subject_check, check_request, propose, snapshot, proceed, merge_to_main,
}

-- The commands of git that change nothing.
abbrev reading : List Str → Bool
reading [] = false
reading (a ∷ args) =
    str_eq a (str "rev-parse")
    || str_eq a (str "diff")
    || str_eq a (str "merge-base")
    || str_eq a (str "log")

abbrev pub IsReading : Command → Type 0
IsReading c = reading c.args ≡ true

-- From one state to another, only reading commands were run.
abbrev pub OnlyReads : {W : Type 0} → State W → State W → Type 0
OnlyReads s t = (added : List Command) × (t.ran ≡ added ++ s.ran) × All IsReading added

module _ {W : Type 0} where
  abbrev IsReader : {A : Type 0} → Run W A → Type 0
  IsReader m = (s : State W) → OnlyReads s (m s).1

  OnlyReads-refl : (s : State W) → OnlyReads s s
  OnlyReads-refl s = ([], refl, tt)

  OnlyReads-trans : (s t u : State W) → OnlyReads s t → OnlyReads t u → OnlyReads s u
  OnlyReads-trans s t u (xs, e, hx) (ys, f, hy) = (
    ys ++ xs,
    f ∙ (ap (λ l. ys ++ l) e ∙ sym (append_assoc ys xs s.ran)),
    All-append IsReading ys xs hy hx,
  )

  behind-reads :
      {A B : Type 0} (s t : State W) (r : Result A MergeError) (f : A → Run W B)
      → OnlyReads s t
      → ((a : A) → IsReader (f a))
      → OnlyReads s (behind r f t).1
  behind-reads s t (ok a) f h k = OnlyReads-trans s t (f a t).1 h (k a t)
  behind-reads s t (err e) f h k = h

  IsReader-bind :
      {A B : Type 0} (m : Run W A) (f : A → Run W B)
      → IsReader m
      → ((a : A) → IsReader (f a))
      → IsReader (m >>= f)
  IsReader-bind m f h k s = behind-reads s (m s).1 (m s).0 f (h s) k

  chosen-IsReader :
      {A : Type 0} (b : Bool) (m k : Run W A)
      → b ≡ true
      → IsReader m
      → IsReader (if b then m else k)
  chosen-IsReader true m k e h = h
  chosen-IsReader false m k e h = absurd cc

module _ {W : Type 0} (host : Host W) where
  git-IsReader : (dir : Str) (args : List Str) → reading args ≡ true → IsReader (git host dir args)
  unfolding git_as
  git-IsReader dir args h s =
      (record { allow_main_commit = false; dir = dir; args = args } ∷ [], refl, (h, tt))

  git_output-IsReader :
      (dir : Str) (args : List Str) → reading args ≡ true → IsReader (git_output host dir args)
  unfolding git_output
  git_output-IsReader dir args h =
      IsReader-bind (git host dir args) _ (git-IsReader dir args h) (λ out. OnlyReads-refl)

  head_sha-IsReader : (repo : Str) → IsReader (head_sha host repo)
  unfolding head_sha str_eq
  head_sha-IsReader repo =
      IsReader-bind (git_output host repo (str "rev-parse" ∷ str "HEAD" ∷ [])) _
        (git_output-IsReader _ _ refl) (λ out. OnlyReads-refl)

  current_branch-IsReader : (repo : Str) → IsReader (current_branch host repo)
  unfolding current_branch str_eq
  current_branch-IsReader repo =
      IsReader-bind (git_output host repo (str "rev-parse" ∷ str "--abbrev-ref" ∷ str "HEAD" ∷ []))
        _ (git_output-IsReader _ _ refl) (λ out. OnlyReads-refl)

  branch_already_merged-IsReader : (repo tip : Str) → IsReader (branch_already_merged host repo tip)
  unfolding branch_already_merged str_eq
  branch_already_merged-IsReader repo tip =
      IsReader-bind (git host repo (str "merge-base" ∷ str "--is-ancestor" ∷ tip ∷ str "main" ∷ []))
        _ (git-IsReader _ _ refl) (λ out. OnlyReads-refl)

  branch_carveout_eligible-IsReader : (wt : Str) → IsReader (branch_carveout_eligible host wt)
  unfolding branch_carveout_eligible branch_changed_paths str_eq
  branch_carveout_eligible-IsReader wt =
      IsReader-bind (branch_changed_paths host wt) _
        (IsReader-bind
          (git_output host wt (str "diff" ∷ str "main...HEAD" ∷ str "--name-only" ∷ [])) _
          (git_output-IsReader _ _ refl) (λ out. OnlyReads-refl))
        (λ paths. OnlyReads-refl)

  module _ (main_repo worktree : Str) (req : MergeRequest) where
    check_request-IsReader : IsReader (check_request host main_repo worktree req)
    unfolding check_request
    check_request-IsReader =
        IsReader-bind
          (reads (λ s. validate_request (bypass_subject_check host main_repo worktree req) req)) _
          OnlyReads-refl
          λ u.
            IsReader-bind (current_branch host worktree) _ (current_branch-IsReader worktree) λ b.
              IsReader-bind _ _ OnlyReads-refl λ u.
                IsReader-bind (branch_carveout_eligible host worktree) _
                  (branch_carveout_eligible-IsReader worktree)
                  λ c.
                    IsReader-bind (reads (λ s. validate_voices req c)) _ OnlyReads-refl
                      λ u. OnlyReads-refl

    snapshot-IsReader : IsReader (snapshot host main_repo worktree req)
    unfolding snapshot
    snapshot-IsReader = IsReader-bind (head_sha host main_repo) _ (head_sha-IsReader main_repo) λ a.
        IsReader-bind (head_sha host worktree) _ (head_sha-IsReader worktree) λ b.
          IsReader-bind (branch_already_merged host main_repo b) _
            (branch_already_merged-IsReader main_repo b) λ c. OnlyReads-refl

    propose-IsReader : (a b : Str) → IsReader (propose host main_repo worktree req a b)
    unfolding propose write_file
    propose-IsReader a b = IsReader-bind (write_file host _ _) _ OnlyReads-refl λ u. OnlyReads-refl

    proceed-IsReader :
        (tips : (Str × Str) × Bool)
        → (req.dry_run ≡ true) ⊎ (tips.1 ≡ true)
        → IsReader (proceed host main_repo worktree req tips)
    unfolding proceed
    proceed-IsReader ((a, b), true) h = OnlyReads-refl
    proceed-IsReader ((a, b), false) (inl dry) =
        chosen-IsReader req.dry_run (propose host main_repo worktree req a b) _ dry
          (propose-IsReader a b)
    proceed-IsReader ((a, b), false) (inr e) = absurd (cc e)

    -- What the gates have seen: the request's shape, the branch of the worktree, voices that are enough
    -- for what the branch touches, and verdicts that do not object, in a state after reading only.
    pub record IsPassed (s : State W) : Type 0 where
      pub request : validate_request (bypass_subject_check host main_repo worktree req) req ≡ ok tt
      pub checked_out : (current_branch host worktree s).0 ≡ ok req.branch
      pub eligible : Bool
      pub carveout :
          (branch_carveout_eligible host worktree (current_branch host worktree s).1).0
          ≡ ok eligible
      pub voices : validate_voices req eligible ≡ ok tt
      pub at : State W
      pub before : OnlyReads s at
      pub lease : enforce_lease_compliance host main_repo req at.world ≡ ok tt

    check_request-IsPassed :
        (s : State W) → (check_request host main_repo worktree req s).0 ≡ ok tt → IsPassed s
    unfolding check_request
    check_request-IsPassed s h =
        let t = (current_branch host worktree s).1 in
        let u = (branch_carveout_eligible host worktree t).1 in
        elim (Result-cases
          (validate_request (bypass_subject_check host main_repo worktree req) req)) [
            | inr (e, failed) ↦ absurd (let g = rw (check_request, failed) at h in cc)
            | inl (tt, request) ↦ elim (Result-cases (current_branch host worktree s).0) [
              | inr (e, failed) ↦ absurd (let g = rw (check_request, request, failed) at h in cc)
              | inl (b, checked) ↦ elim (Bool-cases (str_eq b req.branch)) [
                | inr other ↦
                    absurd (let g = rw (check_request, request, checked, other) at h in cc)
                | inl same ↦ elim (Result-cases (branch_carveout_eligible host worktree t).0) [
                  | inr (e, failed) ↦
                      absurd (let g = rw (check_request, request, checked, same, failed) at h in cc)
                  | inl (eligible, carveout) ↦ elim (Result-cases (validate_voices req eligible)) [
                    | inr (e, failed) ↦ absurd (
                        let g = rw (check_request, request, checked, same, carveout, failed) at h in
                        cc)
                    | inl (tt, voices) ↦ record {
                      request = request;
                      checked_out = checked ∙ ap ok ((str_eq_iff b req.branch).0 same);
                      eligible = eligible;
                      carveout = carveout;
                      voices = voices;
                      at = u;
                      before =
                          OnlyReads-trans s t u (current_branch-IsReader worktree s)
                            (branch_carveout_eligible-IsReader worktree t);
                      lease = rw (check_request, request, checked, same, carveout, voices) at h;
                    }
                  ]
                ]
              ]
            ]
          ]

    -- `merge_to_main` runs no `git` command but such as read (`rev-parse`, `diff`, `merge-base`, `log`), or the
    -- call is no dry run and every gate has passed: the request's shape, the worktree's branch, the
    -- voices with the carveout, and the lease compliance of the verdicts.
    pub merge_to_main-guarded :
        (s : State W)
        → OnlyReads s (merge_to_main host main_repo worktree req s).1
          ⊎ ((req.dry_run ≡ false) × IsPassed s)
    unfolding merge_to_main
    merge_to_main-guarded s = elim (Result-cases (check_request host main_repo worktree req s).0) [
      | inr (e, failed) ↦ inl (rw (merge_to_main, failed) (check_request-IsReader s))
      | inl (tt, passed) ↦ elim (Bool-cases req.dry_run) [
        | inr real ↦ inr (real, check_request-IsPassed s passed)
        | inl dry ↦ inl (
            IsReader-bind (check_request host main_repo worktree req) _ check_request-IsReader
              (λ u.
                IsReader-bind (snapshot host main_repo worktree req) _ snapshot-IsReader
                  λ tips. proceed-IsReader tips (inl dry))
              s)
      ]
    ]
