-- ===== src/Wtpool/Merge/Compliance.antt =====
-- What the lease gate of wtpool/src/merge.rs lets through.
use mcp_tools.Prelude.{
  ◌≡◌, ◌≢◌, ◌↔◌, ◌⊎◌, inl, inr, refl, ap, arith, true, false, Option, none, some, List, [], ◌∷◌,
  ◌++◌, All, Str, str, str_eq, str_eq_iff, trim, Bool-cases,
}
use mcp_tools.Prelude.Result.{ok, Result-cases}
use mcp_tools.Wtpool.Merge.{MergeRequest, MergeError}
use mcp_tools.Wtpool.Merge.Host.{GitOutput, Verdict, Host, success}
use mcp_tools.Wtpool.Merge.Host.Gates.{
  unwrap_or, voice_skip_for_lease, compliant, violation, unparsed, extract_verdict_script,
  verdict_file_path, probe, finding, lease_loop, enforce_lease_compliance,
}

append-ne-nil : {A : Type 0} (xs ys : List A) → xs ++ ys ≡ [] → (xs ≡ []) × (ys ≡ [])
append-ne-nil [] ys h = (refl, h)
append-ne-nil (x ∷ xs) ys h = absurd cc

module _ {W : Type 0} (host : Host W) where
  -- The script reads the verdict file, and does not find the change out of scope.
  pub record IsInScope (main_repo vf : Str) (w : W) : Type 0 where
    pub out : GitOutput
    pub verdict : Verdict
    pub ran : host.run_script (extract_verdict_script host main_repo) vf w ≡ ok out
    pub succeeded : success out ≡ true
    pub parsed : host.parse_verdict (trim out.stdout) ≡ ok verdict
    pub in_scope : verdict.lease_compliance ≢ some (str "out-of-scope")

  -- A voice that is not looked into, or has no verdict file, or one that is in scope.
  abbrev pub IsCompliant : Str → Str → W → Str → Type 0
  IsCompliant main_repo branch w voice =
      (voice_skip_for_lease voice ≡ true)
      ⊎ ((host.exists (verdict_file_path host branch (trim voice)) w ≡ false)
          ⊎ IsInScope main_repo (verdict_file_path host branch (trim voice)) w)

  not-out-of-scope :
      (o : Option Str)
      → str_eq (unwrap_or o (str "not-applicable")) (str "out-of-scope") ≡ false
      → o ≢ some (str "out-of-scope")
  not-out-of-scope none h e = cc
  not-out-of-scope (some s) h e =
      let same : s ≡ str "out-of-scope" = cc in cc (h, (str_eq_iff s (str "out-of-scope")).1 same)

  in-scope :
      (o : Option Str)
      → o ≢ some (str "out-of-scope")
      → str_eq (unwrap_or o (str "not-applicable")) (str "out-of-scope") ≡ false
  unfolding str_eq
  in-scope none ne = refl
  in-scope (some s) ne = elim (Bool-cases (str_eq s (str "out-of-scope"))) [
    | inl same ↦ absurd (ne (ap some ((str_eq_iff s (str "out-of-scope")).0 same)))
    | inr other ↦ other
  ]

  probe-IsInScope :
      (main_repo voice vf : Str) (w : W)
      → probe host (extract_verdict_script host main_repo) voice vf w ≡ ok compliant
      → IsInScope main_repo vf w
  unfolding probe
  probe-IsInScope main_repo voice vf w h =
      elim (Result-cases (host.run_script (extract_verdict_script host main_repo) vf w)) [
        | inr (e, failed) ↦ absurd (let g = rw (probe, failed) at h in cc)
        | inl (out, ran) ↦ elim (Bool-cases (success out)) [
          | inr bad ↦ absurd (let g = rw (probe, ran, bad) at h in cc)
          | inl good ↦ elim (Result-cases (host.parse_verdict (trim out.stdout))) [
            | inr (e, failed) ↦ absurd (let g = rw (probe, ran, good, failed) at h in cc)
            | inl (v, parsed) ↦
                elim (Bool-cases (
                  str_eq (unwrap_or v.lease_compliance (str "not-applicable"))
                    (str "out-of-scope"))) [
                      | inl outside ↦
                          absurd (let g = rw (probe, ran, good, parsed, outside) at h in cc)
                      | inr inside ↦ record {
                        out = out;
                        verdict = v;
                        ran = ran;
                        succeeded = good;
                        parsed = parsed;
                        in_scope = not-out-of-scope v.lease_compliance inside;
                      }
                    ]
          ]
        ]
      ]

  IsInScope-probe :
      (main_repo voice vf : Str) (w : W)
      → IsInScope main_repo vf w
      → probe host (extract_verdict_script host main_repo) voice vf w ≡ ok compliant
  unfolding probe
  IsInScope-probe main_repo voice vf w s =
      rw (probe, s.ran, s.succeeded, s.parsed, in-scope s.verdict.lease_compliance s.in_scope) refl

  finding-IsCompliant :
      (main_repo branch : Str) (w : W) (voice : Str)
      → finding host main_repo branch voice w ≡ ok compliant
      → IsCompliant main_repo branch w voice
  unfolding finding
  finding-IsCompliant main_repo branch w voice h =
      let vf = verdict_file_path host branch (trim voice) in
      elim (Bool-cases (voice_skip_for_lease voice)) [
        | inl skip ↦ inl skip
        | inr look ↦ elim (Bool-cases (host.exists vf w)) [
          | inr missing ↦ inr (inl missing)
          | inl there ↦
              inr (inr (probe-IsInScope main_repo voice vf w (rw (finding, look, there) at h)))
        ]
      ]

  IsCompliant-finding :
      (main_repo branch : Str) (w : W) (voice : Str)
      → IsCompliant main_repo branch w voice
      → finding host main_repo branch voice w ≡ ok compliant
  unfolding finding
  IsCompliant-finding main_repo branch w voice (inl skip) = rw skip refl
  IsCompliant-finding main_repo branch w voice (inr (inl missing)) = ground arith
  IsCompliant-finding main_repo branch w voice (inr (inr s)) =
      let vf = verdict_file_path host branch (trim voice) in
      ground (arith, IsInScope-probe main_repo voice vf w s)

  lease_loop-forth :
      (main_repo branch : Str) (voices : List Str) (vs fs : List MergeError) (w : W)
      → lease_loop host main_repo branch voices vs fs w ≡ ok tt
      → (vs ≡ []) × (fs ≡ []) × All (IsCompliant main_repo branch w) voices
  unfolding lease_loop
  lease_loop-forth main_repo branch [] [] [] w h = (refl, refl, tt)
  lease_loop-forth main_repo branch [] (v ∷ vs) fs w h = absurd cc
  lease_loop-forth main_repo branch [] [] (f ∷ fs) w h = absurd cc
  lease_loop-forth main_repo branch (voice ∷ voices) vs fs w h =
      elim (Result-cases (finding host main_repo branch voice w)) [
        | inr (e, failed) ↦ absurd (let g = rw (lease_loop, failed) at h in cc)
        | inl (compliant, found) ↦
            let (none_v, none_f, rest) =
              lease_loop-forth main_repo branch voices (vs ++ []) (fs ++ []) w
                (rw (lease_loop, found) at h) in
            (
              (append-ne-nil vs [] none_v).0,
              (append-ne-nil fs [] none_f).0,
              (finding-IsCompliant main_repo branch w voice found, rest),
            )
        | inl (violation, found) ↦
            let (none_v, none_f, rest) =
              lease_loop-forth main_repo branch voices _ _ w (rw (lease_loop, found) at h) in
            absurd (let e = (append-ne-nil vs _ none_v).1 in cc e)
        | inl (unparsed details, found) ↦
            let (none_v, none_f, rest) =
              lease_loop-forth main_repo branch voices _ _ w (rw (lease_loop, found) at h) in
            absurd (let e = (append-ne-nil fs _ none_f).1 in cc e)
      ]

  lease_loop-back :
      (main_repo branch : Str) (voices : List Str) (w : W)
      → All (IsCompliant main_repo branch w) voices
      → lease_loop host main_repo branch voices [] [] w ≡ ok tt
  unfolding lease_loop
  lease_loop-back main_repo branch [] w a = refl
  lease_loop-back main_repo branch (voice ∷ voices) w (c, a) =
      rw (lease_loop, IsCompliant-finding main_repo branch w voice c)
        (lease_loop-back main_repo branch voices w a)

  -- The lease gate lets a merge through exactly if for each voice that is looked into and has a
  -- verdict file, the script reads the file, its output parses, and it does not say out of scope.
  pub enforce_lease_compliance_iff :
      (main_repo : Str) (req : MergeRequest) (w : W)
      → (enforce_lease_compliance host main_repo req w ≡ ok tt)
        ↔ All (IsCompliant main_repo req.branch w) req.reviewer_voices
  unfolding enforce_lease_compliance
  enforce_lease_compliance_iff main_repo req w = (
    λ h. (lease_loop-forth main_repo req.branch req.reviewer_voices [] [] w h).2,
    lease_loop-back main_repo req.branch req.reviewer_voices w,
  )
