-- ===== src/CodexStdio/RunTask/Fences.antt =====
-- A diff is let through if and only if every path that its headers name leads into the worktree.
use mcp_tools.Prelude.{
  ◌≡◌, refl, ap₂, subst, &&_iff, true, Bool-cases, inl, inr, ◌↔◌, Option-cases, some, ap, ◌∙◌, List,
  [], ◌∷◌, ◌++◌, arith, All, Str, str_eq_iff,
}
use mcp_tools.Prelude.Result.{ok, Result-cases}
use mcp_tools.CodexStdio.Paths.{
  Component, root_dir, cur_dir, parent_dir, normal, components, starts_with_path, same_component,
  lines,
}
use mcp_tools.CodexStdio.RunTask.Headers.{Names, Leads, named_path_iff, resolve_iff}
use mcp_tools.CodexStdio.Worktree.{
  Host, named_path, resolve, check_path, check_lines, validate_diff_paths_under_worktree,
}

-- A path is in a directory: it goes on from there.
abbrev pub IsInside : List Component → List Component → Type 0
IsInside base path = (below : List Component) × (path ≡ base ++ below)

same_component_iff : (a b : Component) → (same_component a b ≡ true) ↔ (a ≡ b)
same_component_iff (normal a) (normal b) = ground (arith, str_eq_iff a b)
same_component_iff root_dir b = ground arith
same_component_iff cur_dir b = ground arith
same_component_iff parent_dir b = ground arith
same_component_iff (normal a) b = ground arith

starts_with_path_iff :
    (path base : List Component) → (starts_with_path path base ≡ true) ↔ IsInside base path
unfolding starts_with_path
starts_with_path_iff path [] = (λ h. (path, refl), λ h. refl)
starts_with_path_iff [] (b ∷ base) = ((λ h. cc), λ (below, e). cc)
starts_with_path_iff (c ∷ path) (b ∷ base) = (
  (λ h.
      let (same, rest) = (&&_iff (same_component c b) (starts_with_path path base)).0 h in
      let (below, e) = (starts_with_path_iff path base).0 rest in
      (below, ap₂ (◌∷◌) ((same_component_iff c b).0 same) e)),
  λ (below, e).
      let tail : path ≡ base ++ below = cc in
      let head : c ≡ b = cc in
      (&&_iff (same_component c b) (starts_with_path path base)).1
        ((same_component_iff c b).1 head, (starts_with_path_iff path base).1 (below, tail)),
)

module _ {W : Type 0} (host : Host W) (w : W) where
  -- Every path that the line names leads into the worktree.
  abbrev pub IsFenced : Str → Str → Type 0
  IsFenced worktree line =
      (field : Str)
      → Names line field
      → (place : List Component) → Leads host w worktree field place
      → IsInside (components worktree) place

  -- A refusal names the path, and where it leads.
  check_path_iff :
      (worktree line : Str)
      → (check_path host w worktree (named_path line) ≡ ok tt) ↔ IsFenced worktree line
  check_path_iff worktree line = elim (Option-cases (named_path line)) [
    | inl silent ↦
        rw silent
          ((λ h field names. absurd (let g = (named_path_iff line field).1 names in cc)), λ h. refl)
    | inr (field, named') ↦ rw named' (
      (λ h field' names place leads.
          let same : field' ≡ field = (let g = (named_path_iff line field').1 names in cc) in
          let there : place ≡ resolve host w worktree field =
            (resolve_iff host w worktree field' place).0 leads
            ∙ ap (resolve host w worktree) same in
          rw there ((starts_with_path_iff _ _).0 (inside field h))),
      λ h.
          let place = resolve host w worktree field in
          let goes = (starts_with_path_iff place (components worktree)).1 (
            h field ((named_path_iff line field).0 named') place
              ((resolve_iff host w worktree field place).1 refl)) in
          rw goes refl,
    )
  ]
    where
      inside :
          (field : Str)
          → check_path host w worktree (some field) ≡ ok tt
          → starts_with_path (resolve host w worktree field) (components worktree) ≡ true
      inside field h =
          elim (Bool-cases
            (starts_with_path (resolve host w worktree field) (components worktree))) [
              | inl yes' ↦ yes'
              | inr outside ↦ absurd (let g = rw outside at h in cc)
            ]

  check_lines_iff :
      (worktree : Str) (diff : List Str)
      → (check_lines host w worktree diff ≡ ok tt) ↔ All (IsFenced worktree) diff
  unfolding check_lines
  check_lines_iff worktree [] = (λ h. tt, λ h. refl)
  check_lines_iff worktree (line ∷ rest) =
      elim (Result-cases (check_path host w worktree (named_path line))) [
        | inl (u, e) ↦ rw e (
          (λ h. ((check_path_iff worktree line).0 e, (check_lines_iff worktree rest).0 h)),
          λ (here, later). (check_lines_iff worktree rest).1 later,
        )
        | inr (failure, e) ↦ rw e (
          (λ h. absurd cc),
          λ (here, later). absurd (let back = (check_path_iff worktree line).1 here in cc),
        )
      ]

  -- A diff is let through if and only if the worktree has a canonical path, and each path that a line
  -- of the diff names leads to a place in the worktree. A line names what follows `+++ ` or `--- ` up
  -- to a tab, trimmed, unless that is `/dev/null`. The path is taken without an `a/` or `b/` at its
  -- front and, if it is relative, from the worktree on; it leads where the file system says if it is on
  -- disk, and else to what is left of its text when each name with a `..` right behind it is erased.
  pub validate_diff_paths_under_worktree_iff :
      (diff worktree : Str)
      → (validate_diff_paths_under_worktree host w diff worktree ≡ ok tt) ↔ (
          (canon : Str) × (host.canonicalize w worktree ≡ ok canon)
          × All (IsFenced canon) (lines diff))
  unfolding validate_diff_paths_under_worktree
  validate_diff_paths_under_worktree_iff diff worktree =
      elim (Result-cases (host.canonicalize w worktree)) [
        | inl (canon, e) ↦ rw e (
          (λ h. (canon, refl, (check_lines_iff canon (lines diff)).0 h)),
          λ (canon', same, fenced).
              let eq : canon' ≡ canon = cc in
              (check_lines_iff canon (lines diff)).1
                (subst (λ c. All (IsFenced c) (lines diff)) eq fenced),
        )
        | inr (failure, e) ↦ rw e ((λ h. absurd cc), λ (canon, same, fenced). absurd cc)
      ]
