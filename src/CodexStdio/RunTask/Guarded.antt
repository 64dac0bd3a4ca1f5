-- ===== src/CodexStdio/RunTask/Guarded.antt =====
-- What a task's result promises of the worktree.
use mcp_tools.Prelude.{
  ◌≡◌, refl, ap, subst, true, Bool-cases, ◌⊎◌, inl, inr, Option, none, some, Option-cases, [], ◌∷◌,
  Str, str, str_eq, str_eq_iff, trim, ◌≢◌, arith, is_empty,
}
use mcp_tools.Prelude.Result.{Result, ok, err, Result-cases}
use mcp_tools.Prelude.Action.{Action}
use mcp_tools.CodexStdio.Worktree.{
  Host, TaskError, validate_diff_paths_under_worktree, decide_commit_outcome, git_rev_parse_head,
  git_status_porcelain, moved,
}
use mcp_tools.CodexStdio.RunTask.{
  Args, ChatRequest, ChatResponse, Outcome, conclude, dispatch, request_of, ok_of, first_choice,
  or_model_text, real_diff,
}

module _ {W : Type 0} (host : Host W) where
  -- The head of the worktree was known before, and is another one now.
  abbrev pub HasMoved : W → Option Str → Str → Str → Type 0
  HasMoved w pre_sha worktree post =
      (pre : Str) × (pre_sha ≡ some pre)
      × (git_rev_parse_head host w worktree ≡ ok post)
      × (pre ≢ post)

  -- Git lists no change, or it does not answer.
  abbrev pub IsQuiet : W → Str → Type 0
  IsQuiet w worktree =
      ((porcelain : Str) × (git_status_porcelain host w worktree ≡ ok porcelain)
        × (trim porcelain ≡ []))
      ⊎ ((e : TaskError) × (git_status_porcelain host w worktree ≡ err e))

  -- What the result reports of the commit is so: its hash, and by whom it was made.
  abbrev pub IsSettled : W → Option Str → Str → Option Str × Str → Type 0
  IsSettled w pre_sha worktree commit =
      ((post : Str) × HasMoved w pre_sha worktree post × (commit ≡ (some post, str "codex")))
      ⊎ (((post : Str) → ¬ HasMoved w pre_sha worktree post)
          × IsQuiet w worktree
          × (commit ≡ (none, str "none")))

  diff_of : Result Outcome TaskError → Str
  diff_of (ok outcome) = outcome.diff
  diff_of (err e) = []

  commit_of : Result Outcome TaskError → Option Str × Str
  commit_of (ok outcome) = (outcome.commit_sha, outcome.committed_by)
  commit_of (err e) = (none, [])

  HasMoved-moved :
      (w : W) (pre_sha : Option Str) (worktree post : Str)
      → HasMoved w pre_sha worktree post
      → moved host w pre_sha (git_rev_parse_head host w worktree) ≡ true
  HasMoved-moved w pre_sha worktree post (pre, known, head, differs) =
      elim (Bool-cases (str_eq pre post)) [
        | inl same ↦ absurd (differs ((str_eq_iff pre post).0 same))
        | inr other ↦ rw (known, head, other) refl
      ]

  moved-HasMoved :
      (w : W) (pre_sha : Option Str) (worktree : Str)
      → moved host w pre_sha (git_rev_parse_head host w worktree) ≡ true
      → (post : Str) × HasMoved w pre_sha worktree post
  moved-HasMoved w none worktree h = absurd cc
  moved-HasMoved w (some pre) worktree h =
      elim (Result-cases (git_rev_parse_head host w worktree)) [
        | inr (e, failed) ↦ absurd (let g = rw failed at h in cc)
        | inl (post, head) ↦ (
          post,
          (
            pre,
            refl,
            head,
            λ same.
                absurd
                  (let g = rw head at h in let back = (str_eq_iff pre post).1 same in ground arith),
          ),
        )
      ]

  decide-IsSettled :
      (w : W) (pre_sha : Option Str) (worktree : Str) (commit : Option Str × Str)
      → decide_commit_outcome host w pre_sha worktree ≡ ok commit
      → IsSettled w pre_sha worktree commit
  unfolding decide_commit_outcome
  decide-IsSettled w pre_sha worktree commit h =
      elim (Bool-cases (moved host w pre_sha (git_rev_parse_head host w worktree))) [
        | inl gone ↦
            let (post, (pre, known, head, differs)) = moved-HasMoved w pre_sha worktree gone in
            let g = rw (gone, head) at h in inl (post, (pre, known, head, differs), cc)
        | inr stays ↦
            let still : (post : Str) → ¬ HasMoved w pre_sha worktree post =
              λ post there. absurd (let g = HasMoved-moved w pre_sha worktree post there in cc) in
            elim (Result-cases (git_status_porcelain host w worktree)) [
              | inr (e, failed) ↦
                  let g = rw (stays, failed) at h in inr (still, inr (e, failed), cc)
              | inl (porcelain, read) ↦ elim (Bool-cases (is_empty (trim porcelain))) [
                | inl blank ↦
                    let g = rw (stays, read, blank) at h in
                    inr (still, inl (porcelain, read, empty_text (trim porcelain) blank), cc)
                | inr dirty' ↦ absurd (let g = rw (stays, read, dirty') at h in cc)
              ]
            ]
      ]
    where
      empty_text : (s : Str) → is_empty s ≡ true → s ≡ []
      empty_text [] h = refl
      empty_text (c ∷ s) h = absurd cc

  conclude-guarded :
      (args : Args) (pre_sha : Option Str) (resp : ChatResponse) (v : W) (outcome : Outcome)
      → (conclude host args pre_sha resp v).0 ≡ ok outcome
      → ((conclude host args pre_sha resp v).1 ≡ v)
        × (validate_diff_paths_under_worktree host v outcome.diff args.worktree_path ≡ ok tt)
        × IsSettled v pre_sha args.worktree_path (outcome.commit_sha, outcome.committed_by)
  unfolding conclude diff_of commit_of
  conclude-guarded args pre_sha resp v outcome h =
      elim (Option-cases (first_choice host resp.choices)) [
        | inl none' ↦ absurd (let g = rw none' at h in cc)
        | inr (choice, some') ↦
            let diff =
              or_model_text host (real_diff host pre_sha args.worktree_path v)
                choice.message.content in
            elim (Result-cases
              (validate_diff_paths_under_worktree host v diff args.worktree_path)) [
                | inr (e, escapes) ↦ absurd (let g = rw (some', escapes) at h in cc)
                | inl (u, fenced) ↦
                    elim (Result-cases (decide_commit_outcome host v pre_sha args.worktree_path)) [
                      | inr (e, refused) ↦ absurd (let g = rw (some', fenced, refused) at h in cc)
                      | inl (commit, decided) ↦
                          let same : diff ≡ outcome.diff =
                            ap diff_of (rw (some', fenced, decided) at h) in
                          (
                            rw (some', fenced, decided) refl,
                            subst
                                (λ d.
                                  validate_diff_paths_under_worktree host v d args.worktree_path
                                  ≡ ok tt)
                                same fenced,
                            subst (IsSettled v pre_sha args.worktree_path)
                                (ap commit_of (rw (some', fenced, decided) at h))
                                (decide-IsSettled v pre_sha args.worktree_path commit decided),
                          )
                    ]
              ]
      ]

  module _ (client : ChatRequest → Action W Str ChatResponse) where
    -- A task that gives a result leaves the machine as the client left it, and there the diff of the
    -- result passed the fence of the worktree. If the head is known from before the task and moved, the
    -- result reports the new head as a commit of Codex; edits beside that commit may be in the diff.
    -- Else it reports no commit, and git's status lists no change, or failed.
    pub dispatch-guarded :
        (args : Args) (w : W) (outcome : Outcome)
        → (dispatch host client args w).0 ≡ ok outcome
        → (validate_diff_paths_under_worktree host
              (dispatch host client args w).1
              outcome.diff
              args.worktree_path
            ≡ ok tt)
          × IsSettled
              (dispatch host client args w).1
              (ok_of host (git_rev_parse_head host w args.worktree_path))
              args.worktree_path
              (outcome.commit_sha, outcome.committed_by)
          × ((dispatch host client args w).1 ≡ (client (request_of host args) w).1)
    unfolding dispatch
    dispatch-guarded args w outcome h =
        let pre_sha = ok_of host (git_rev_parse_head host w args.worktree_path) in
        elim (Result-cases (client (request_of host args) w).0) [
          | inr (e, silent) ↦ absurd (let g = rw silent at h in cc)
          | inl (resp, answered) ↦ rw answered (
              let (stays, fenced, settled) =
                conclude-guarded args pre_sha resp (client (request_of host args) w).1 outcome
                  (rw answered at h) in
              (rw stays fenced, rw stays settled, stays))
        ]
