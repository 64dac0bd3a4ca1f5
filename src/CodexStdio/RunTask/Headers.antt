-- ===== src/CodexStdio/RunTask/Headers.antt =====
-- Which path a line of a diff names, and where that path leads, said without the functions of the code.
use mcp_tools.Prelude.{
  ℕ, ◌≡◌, ◌≢◌, refl, ap, sym, ◌∙◌, ◌⊎◌, inl, inr, ◌↔◌, true, false, Bool-cases, Option, none, some,
  Option-cases, List, [], ◌∷◌, ◌++◌, arith, ◌==◌, split_by, Str, str, str_eq, str_eq_iff,
  strip_prefix, split, trim, join_path,
}
use mcp_tools.Prelude.Result.{ok, err, Result-cases}
use mcp_tools.CodexStdio.Paths.{Component, components, is_absolute}
use mcp_tools.CodexStdio.Worktree.{
  Host, named_path, resolve, header_of, named, path_field, first_piece, stripped, candidate,
  resolved_or,
}
use mcp_tools.CodexStdio.RunTask.Reduced.{LeadsTo, IsReduced, lexical_resolve_iff}

-- The text in front of the first tab, or all of it.
abbrev pub IsFrontOfTab : Str → Str → Type 0
IsFrontOfTab front [] = front ≡ []
IsFrontOfTab front (c ∷ s) =
    ((c ≡ b'\t') × (front ≡ []))
    ⊎ ((c ≢ b'\t') × ((more : Str) × (front ≡ c ∷ more) × IsFrontOfTab more s))

-- The line is a `+++` or a `---` line, and this is what stands there up to a tab, trimmed.
abbrev pub IsHeader : Str → Str → Type 0
IsHeader line field =
    (raw : Str) × ((line ≡ str "+++ " ++ raw) ⊎ (line ≡ str "--- " ++ raw))
    × ((front : Str) × IsFrontOfTab front raw × (field ≡ trim front))

abbrev pub Names : Str → Str → Type 0
Names line field = IsHeader line field × (field ≢ str "/dev/null")

-- The path without the letter that git puts in front of it.
abbrev pub IsUnlabelled : Str → Str → Type 0
IsUnlabelled field path =
    (field ≡ str "a/" ++ path)
    ⊎ ((field ≡ str "b/" ++ path)
        ⊎ ((path ≡ field)
            × ((rest : Str) → field ≢ str "a/" ++ rest)
            × ((rest : Str) → field ≢ str "b/" ++ rest)))

abbrev pub IsFrom : Str → Str → Str → Type 0
IsFrom worktree path whole =
    ((is_absolute path ≡ true) × (whole ≡ path))
    ⊎ ((is_absolute path ≡ false) × (whole ≡ join_path worktree path))

module _ {W : Type 0} (host : Host W) (w : W) where
  -- Where a path of a diff leads: the file system tells where it is on disk, else its text does.
  abbrev pub Leads : Str → Str → List Component → Type 0
  Leads worktree field place =
      (path : Str) × IsUnlabelled field path
      × ((whole : Str) × IsFrom worktree path whole
          × (((real : Str) × (host.canonicalize w whole ≡ ok real) × (place ≡ components real))
              ⊎ ((e : Str) × (host.canonicalize w whole ≡ err e)
                  × LeadsTo (components whole) place
                  × IsReduced place)))

strip_prefix_iff : (p s rest : Str) → (strip_prefix p s ≡ some rest) ↔ (s ≡ p ++ rest)
unfolding strip_prefix
strip_prefix_iff [] s rest = ((λ h. cc), λ h. cc)
strip_prefix_iff (c ∷ p) [] rest = ((λ h. absurd cc), λ h. absurd cc)
strip_prefix_iff (c ∷ p) (d ∷ s) rest = ground (arith, strip_prefix_iff p s rest)

abbrev front_of_tab : Str → Str
front_of_tab raw = first_piece (split b'\t' raw) raw

split_nonempty : (s : Str) → (piece : Str) × (rest : List Str) × (split b'\t' s ≡ piece ∷ rest)
unfolding split split_by
split_nonempty [] = ([], [], refl)
split_nonempty (c ∷ s) =
    let (piece, rest, e) = split_nonempty s in
    elim (Bool-cases (c == b'\t')) [
      | inl tab ↦ ([], split b'\t' s, rw tab refl)
      | inr other ↦ (c ∷ piece, rest, rw (other, e) refl)
    ]

front_of_tab_at_tab : (c : ℕ) (s : Str) → (c == b'\t') ≡ true → front_of_tab (c ∷ s) ≡ []
unfolding split split_by
front_of_tab_at_tab c s h = rw h refl

front_of_tab_past :
    (c : ℕ) (s : Str) → (c == b'\t') ≡ false → front_of_tab (c ∷ s) ≡ c ∷ front_of_tab s
unfolding split split_by
front_of_tab_past c s h = let (piece, rest, e) = split_nonempty s in rw (h, e) refl

front_of_tab_iff : (front raw : Str) → IsFrontOfTab front raw ↔ (front ≡ front_of_tab raw)
unfolding split split_by
front_of_tab_iff front [] = ((λ h. h), λ h. h)
front_of_tab_iff front (c ∷ s) = elim (Bool-cases (c == b'\t')) [
  | inl tab ↦
      let e = front_of_tab_at_tab c s tab in
      let same : c ≡ b'\t' = ground arith in
      (
        λ h. elim h [ inl (t, none') ↦ none' ∙ sym e | inr (t, rest) ↦ absurd (t same) ],
        λ h. inl (same, h ∙ e),
      )
  | inr other ↦
      let e = front_of_tab_past c s other in
      let differs : c ≢ b'\t' = ground arith in
      (
        λ h. elim h [
          | inl (t, none') ↦ absurd (differs t)
          | inr (t, (more, f, m)) ↦ f ∙ (ap (◌∷◌ c) ((front_of_tab_iff more s).0 m) ∙ sym e)
        ],
        λ h. inr (differs, (front_of_tab s, h ∙ e, (front_of_tab_iff (front_of_tab s) s).1 refl)),
      )
]

-- A line has one header, with `+++` or with `---`.
header_of_iff :
    (line raw : Str)
    → (header_of line ≡ some raw) ↔ ((line ≡ str "+++ " ++ raw) ⊎ (line ≡ str "--- " ++ raw))
header_of_iff line raw = elim (Option-cases (strip_prefix (str "+++ ") line)) [
  | inl none' ↦ rw none' (
    (λ h. inr ((strip_prefix_iff (str "--- ") line raw).0 h)),
    λ h. elim h [
      | inl plus ↦ absurd (let g = (strip_prefix_iff (str "+++ ") line raw).1 plus in cc)
      | inr minus ↦ (strip_prefix_iff (str "--- ") line raw).1 minus
    ],
  )
  | inr (rest, some') ↦
      let plus_line = (strip_prefix_iff (str "+++ ") line rest).0 some' in
      rw some' (
        (λ h. inl (let same : rest ≡ raw = cc in plus_line ∙ ap (λ r. str "+++ " ++ r) same)),
        λ h. elim h [
          | inl plus ↦ let g = (strip_prefix_iff (str "+++ ") line raw).1 plus in cc
          | inr minus ↦ absurd (let g = sym plus_line ∙ minus in ground arith)
        ],
      )
]

named_iff :
    (header : Option Str) (field : Str)
    → (named header ≡ some field)
      ↔ ((raw : Str) × (header ≡ some raw) × (field ≡ path_field raw) × (field ≢ str "/dev/null"))
named_iff none field = ((λ h. absurd cc), λ (raw, e, _, _). absurd cc)
named_iff (some raw) field = elim (Bool-cases (str_eq (path_field raw) (str "/dev/null"))) [
  | inl null ↦
      let gone = (str_eq_iff (path_field raw) (str "/dev/null")).0 null in
      rw null (
        (λ h. absurd cc),
        λ (r, e, f, n). absurd (let same : r ≡ raw = cc in n (f ∙ (ap path_field same ∙ gone))),
      )
  | inr there ↦ rw there (
    (λ h.
        let same : field ≡ path_field raw = cc in
        (
          raw,
          refl,
          same,
          λ null.
              let back = (str_eq_iff (path_field raw) (str "/dev/null")).1 (sym same ∙ null) in cc,
        )),
    λ (r, e, f, n). let same : r ≡ raw = cc in ap some (sym (f ∙ ap path_field same)),
  )
]

pub named_path_iff : (line field : Str) → (named_path line ≡ some field) ↔ Names line field
unfolding named_path
named_path_iff line field =
    let names = named_iff (header_of line) field in
    (
      λ h.
          let (raw, e, f, n) = names.0 h in
          (
            (
              raw,
              (header_of_iff line raw).0 e,
              (front_of_tab raw, (front_of_tab_iff (front_of_tab raw) raw).1 refl, f),
            ),
            n,
          ),
      λ ((raw, e, (front, m, f)), n).
          names.1
            (raw, (header_of_iff line raw).1 e, f ∙ ap trim ((front_of_tab_iff front raw).0 m), n),
    )

-- The letter of git is taken away from the front.
stripped_iff : (field path : Str) → IsUnlabelled field path ↔ (path ≡ stripped field)
stripped_iff field path =
    let a = strip_prefix_iff (str "a/") field in
    let b = strip_prefix_iff (str "b/") field in
    elim (Option-cases (strip_prefix (str "a/") field)) [
      | inr (rest, labelled) ↦ rw labelled (
        λ h. elim h [
          | inl e ↦ (let g = (a path).1 e in cc)
          | inr (inl e) ↦ absurd (let g = sym ((a rest).0 labelled) ∙ e in ground arith)
          | inr (inr (e, no_a, no_b)) ↦ absurd (no_a rest ((a rest).0 labelled))
        ],
        λ e. inl ((a rest).0 labelled ∙ ap (λ r. str "a/" ++ r) (sym e)),
      )
      | inl no_a ↦ elim (Option-cases (strip_prefix (str "b/") field)) [
        | inr (rest, labelled) ↦
            rw (no_a, labelled)
              (
                λ h. elim h [
                  | inl e ↦ absurd (let g = (a path).1 e in cc)
                  | inr (inl e) ↦ (let g = (b path).1 e in cc)
                  | inr (inr (e, not_a, not_b)) ↦ absurd (not_b rest ((b rest).0 labelled))
                ],
                λ e. inr (inl ((b rest).0 labelled ∙ ap (λ r. str "b/" ++ r) (sym e))),
              )
        | inl no_b ↦
            rw (no_a, no_b)
              (
                λ h. elim h [
                  | inl e ↦ absurd (let g = (a path).1 e in cc)
                  | inr (inl e) ↦ absurd (let g = (b path).1 e in cc)
                  | inr (inr (e, not_a, not_b)) ↦ e
                ],
                λ e. inr (
                    inr (
                      e,
                      (λ rest f. absurd (let g = (a rest).1 f in cc)),
                      λ rest f. absurd (let g = (b rest).1 f in cc),
                    )),
              )
      ]
    ]

module _ {W : Type 0} (host : Host W) (w : W) where
  candidate_iff :
      (worktree field whole : Str)
      → IsFrom worktree (stripped field) whole ↔ (whole ≡ candidate host w worktree field)
  candidate_iff worktree field whole = elim (Bool-cases (is_absolute (stripped field))) [
    | inl absolute ↦
        rw absolute (λ h. elim h [ inl (t, e) ↦ e | inr (t, e) ↦ absurd cc ], λ e. inl (refl, e))
    | inr relative ↦
        rw relative (λ h. elim h [ inl (t, e) ↦ absurd cc | inr (t, e) ↦ e ], λ e. inr (refl, e))
  ]

  abbrev IsPlace : Str → List Component → Type 0
  IsPlace whole place =
      ((real : Str) × (host.canonicalize w whole ≡ ok real) × (place ≡ components real))
      ⊎ ((e : Str) × (host.canonicalize w whole ≡ err e)
          × LeadsTo (components whole) place
          × IsReduced place)

  located_iff :
      (whole : Str) (place : List Component)
      → IsPlace whole place ↔ (place ≡ resolved_or host w whole (host.canonicalize w whole))
  located_iff whole place =
      let by_text = lexical_resolve_iff (components whole) place in
      elim (Result-cases (host.canonicalize w whole)) [
        | inl (real, found) ↦ rw found (
          λ h. elim h [
            | inl (r, e, f) ↦ (let same : r ≡ real = cc in f ∙ ap components same)
            | inr (e, missing, _, _) ↦ absurd cc
          ],
          λ f. inl (real, refl, f),
        )
        | inr (e, missing) ↦ rw missing (
          λ h. elim h [
            | inl (r, found, f) ↦ absurd cc
            | inr (e', _, leads, reduced) ↦ sym (by_text.1 (leads, reduced))
          ],
          λ f. let (leads, reduced) = by_text.0 (sym f) in inr (e, refl, leads, reduced),
        )
      ]

  pub resolve_iff :
      (worktree field : Str) (place : List Component)
      → Leads host w worktree field place ↔ (place ≡ resolve host w worktree field)
  unfolding resolve
  resolve_iff worktree field place = (
    λ (path, unlabelled, (whole, from, ends)).
        let p : path ≡ stripped field = (stripped_iff field path).0 unlabelled in
        let c : whole ≡ candidate host w worktree field =
          (candidate_iff worktree field whole).0 (rw p at from) in
        (located_iff whole place).0 ends
        ∙ ap (λ (v : Str). resolved_or host w v (host.canonicalize w v)) c,
    λ e. (
      stripped field,
      (stripped_iff field (stripped field)).1 refl,
      (
        candidate host w worktree field,
        (candidate_iff worktree field (candidate host w worktree field)).1 refl,
        (located_iff (candidate host w worktree field) place).1 e,
      ),
    ),
  )
