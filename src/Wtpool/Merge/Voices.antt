-- ===== src/Wtpool/Merge/Voices.antt =====
-- Which voices a merge needs, and that its message names them.
use mcp_tools.Prelude.{
  ◌≡◌, ◌≢◌, ◌↔◌, ◌⊎◌, inl, inr, refl, Bool, true, false, ◌&&◌, List, [], ◌∷◌, ◌++◌, arith, is_empty,
  any, all, any_iff, All, Any, contains, Str, str_eq_iff, trim, trim_end, str, append_assoc, sym,
  Bool-cases,
}
use mcp_tools.Prelude.Occurs.{Occurs-contains}
use mcp_tools.Prelude.Result.{ok}
use mcp_tools.Wtpool.Lease.Glob.{glob_match}
use mcp_tools.Wtpool.Merge.{
  rule13_carveout_allowlist, MergeRequest, is_real_voice, is_worker_voice, voices_gate,
  validate_voices, is_allowlisted, is_carveout_eligible, compose_reviewer_trailer,
  compose_merge_message, body_part,
}

all-worker : (vs : List Str) → any is_real_voice vs ≡ false → all is_worker_voice vs ≡ true
unfolding any all
all-worker [] h = refl
all-worker (v ∷ vs) h = ground (arith, all-worker vs)

voices_gate_iff :
    (voices : List Str) (eligible : Bool)
    → (voices_gate voices eligible ≡ ok tt)
      ↔ (Any (λ v. is_real_voice v ≡ true) voices ⊎ ((voices ≡ []) × (eligible ≡ true)))
unfolding any all
voices_gate_iff [] true = ((λ h. inr (refl, refl)), λ h. refl)
voices_gate_iff [] false = ((λ h. absurd cc), λ h. elim h [ inl m ↦ absurd m | inr (e, f) ↦ cc ])
voices_gate_iff (v ∷ vs) eligible = elim (Bool-cases (any is_real_voice (v ∷ vs))) [
  | inl real ↦ ((λ h. inl ((any_iff is_real_voice (v ∷ vs)).0 real)), λ h. rw real refl)
  | inr none_real ↦ (
    λ h. absurd (let g = rw (none_real, all-worker (v ∷ vs) none_real) at h in cc),
    λ h. elim h [
      | inl m ↦ absurd (cc (none_real, (any_iff is_real_voice (v ∷ vs)).1 m))
      | inr (e, f) ↦ absurd (cc e)
    ],
  )
]

is_empty-eq : (s : Str) → (is_empty s ≡ true) ↔ (s ≡ [])
is_empty-eq [] = ((λ h. refl), λ h. refl)
is_empty-eq (c ∷ s) = ((λ h. cc), λ h. cc)

-- A voice that counts: it is not blank and not the worker's own.
abbrev pub IsReviewer : Str → Type 0
IsReviewer v = (trim v ≢ []) × (trim v ≢ str "worktree-worker")

is_real_voice_iff : (v : Str) → (is_real_voice v ≡ true) ↔ IsReviewer v
is_real_voice_iff v =
    ground (arith, str_eq_iff (trim v) (str "worktree-worker"), is_empty-eq (trim v))

real-IsReviewer_iff : (vs : List Str) → Any (λ v. is_real_voice v ≡ true) vs ↔ Any IsReviewer vs
real-IsReviewer_iff [] = ((λ m. m), λ m. m)
real-IsReviewer_iff (v ∷ vs) = ground (arith, is_real_voice_iff v, real-IsReviewer_iff vs)

-- The voices of a request are accepted exactly if one of them is, trimmed, neither empty nor
-- `worktree-worker`, or there are none at all and the branch is eligible for the carveout. So a list of
-- blank voices and of the worker's own alone is refused, whether the branch is eligible or not.
pub validate_voices_iff :
    (req : MergeRequest) (carveout_eligible : Bool)
    → (validate_voices req carveout_eligible ≡ ok tt) ↔ (
        Any IsReviewer req.reviewer_voices
        ⊎ ((req.reviewer_voices ≡ []) × (carveout_eligible ≡ true)))
unfolding validate_voices
validate_voices_iff req carveout_eligible = ground (
  arith,
  voices_gate_iff req.reviewer_voices carveout_eligible,
  real-IsReviewer_iff req.reviewer_voices,
)

and-left : (a b : Bool) → (a && b) ≡ true → a ≡ true
and-left a b h = ground arith

and-right : (a b : Bool) → (a && b) ≡ true → b ≡ true
and-right a b h = ground arith

abbrev IsAllowlisted : Str → Type 0
IsAllowlisted p =
    (trim p ≢ []) × Any (λ pat. glob_match pat (trim p) ≡ true) rule13_carveout_allowlist

is_allowlisted_iff : (p : Str) → (is_allowlisted p ≡ true) ↔ IsAllowlisted p
is_allowlisted_iff p =
    let given = is_empty-eq (trim p) in
    let matched = any_iff (λ pat. glob_match pat (trim p)) rule13_carveout_allowlist in
    elim (Bool-cases (is_empty (trim p))) [
      | inl gone ↦
          ((λ h. absurd (let g = rw gone at h in cc)), λ (ne, m). absurd (ne (given.0 gone)))
      | inr there ↦ (
        (λ h. ((λ e. cc (there, given.1 e)), matched.0 (rw there at h))),
        λ (ne, m). rw there (matched.1 m),
      )
    ]

all-IsAllowlisted_iff :
    (paths : List Str) → (all is_allowlisted paths ≡ true) ↔ All IsAllowlisted paths
unfolding all
all-IsAllowlisted_iff [] = ((λ h. tt), λ h. refl)
all-IsAllowlisted_iff (p ∷ ps) =
    let here = is_allowlisted_iff p in
    let later = all-IsAllowlisted_iff ps in
    (
      λ h. (here.0 (and-left _ _ h), later.0 (and-right _ _ h)),
      λ (a, rest). rw (here.1 a, later.1 rest) refl,
    )

-- A branch is eligible for the carveout by its paths exactly if it touches a path and each path that it
-- touches, trimmed, is not empty and matches a pattern of the allowlist.
pub is_carveout_eligible_iff :
    (paths : List Str)
    → (is_carveout_eligible paths ≡ true) ↔ (
        (paths ≢ [])
        × All
            (λ p.
              (trim p ≢ []) × Any (λ pat. glob_match pat (trim p) ≡ true) rule13_carveout_allowlist)
            paths)
unfolding is_carveout_eligible
is_carveout_eligible_iff [] = ((λ h. cc), λ (ne, a). absurd (ne refl))
is_carveout_eligible_iff (p ∷ ps) =
    let each = all-IsAllowlisted_iff (p ∷ ps) in ((λ h. ((λ e. cc), each.0 h)), λ (ne, a). each.1 a)

-- The message that a merge is made with contains the trailer that the check after the merge looks for.
pub compose_merge_message-contains :
    (req : MergeRequest)
    → contains (compose_reviewer_trailer req.reviewer_voices) (compose_merge_message req) ≡ true
unfolding compose_merge_message
compose_merge_message-contains req =
    let subject = trim_end req.merge_message_subject in
    let body = body_part (trim_end req.merge_message_body) in
    let trailer = compose_reviewer_trailer req.reviewer_voices in
    Occurs-contains trailer (compose_merge_message req) (subject ++ (str "\n\n" ++ body)) (str "\n")
      (sym (append_assoc subject (str "\n\n" ++ body) (trailer ++ str "\n")))
