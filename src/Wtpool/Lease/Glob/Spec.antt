-- ===== src/Wtpool/Lease/Glob/Spec.antt =====
-- What a glob pattern means, and that the matcher decides it.
use mcp_tools.Prelude.{
  ℕ, ◌≡◌, refl, ap, ◌≢◌, ◌↔◌, ◌⊎◌, inl, inr, Bool, true, false, List, [], ◌∷◌, ◌++◌, arith, ◌==◌,
  ==_iff, Bool-cases, Str, str_eq, str_eq_iff, as_bytes, split, length, All,
}
use mcp_tools.Wtpool.Lease.Glob.{
  glob_seg_recurse, glob_segment_match, any_suffix, match_head, double_star, glob_match_segments,
  glob_match,
}

-- A star stands for any run of bytes, every other byte for itself.
abbrev pub SegmentMatches : List ℕ → List ℕ → Type 0
SegmentMatches [] seg = seg ≡ []
SegmentMatches (p ∷ pat) seg =
    ((p ≡ b'*')
      × ((run : List ℕ) × (rest : List ℕ) × (seg ≡ run ++ rest) × SegmentMatches pat rest))
    ⊎ ((p ≢ b'*') × ((rest : List ℕ) × (seg ≡ p ∷ rest) × SegmentMatches pat rest))

-- `**` stands for any run of segments, every other segment for one segment that it matches.
abbrev pub PathMatches : List Str → List Str → Type 0
PathMatches [] path = path ≡ []
PathMatches (p ∷ pat) path =
    ((p ≡ double_star)
      × ((run : List Str) × (rest : List Str) × (path ≡ run ++ rest) × PathMatches pat rest))
    ⊎ ((p ≢ double_star)
        × ((seg : Str) × (rest : List Str) × (path ≡ seg ∷ rest)
            × SegmentMatches (as_bytes p) (as_bytes seg)
            × PathMatches pat rest))

longer_run :
    (p s : ℕ) (pat seg : List ℕ)
    → p ≡ b'*'
    → SegmentMatches (p ∷ pat) seg
    → SegmentMatches (p ∷ pat) (s ∷ seg)
longer_run p s pat seg star (inl (_, (run, rest, e, m))) =
    inl (star, (s ∷ run, rest, ap (◌∷◌ s) e, m))
longer_run p s pat seg star (inr (plain, _)) = absurd (plain star)

glob_seg_recurse_sound :
    (pat seg : List ℕ) → glob_seg_recurse pat seg ≡ true → SegmentMatches pat seg
unfolding glob_seg_recurse
glob_seg_recurse_sound [] [] h = refl
glob_seg_recurse_sound [] (s ∷ seg) h = cc
glob_seg_recurse_sound (p ∷ pat) [] h = elim (Bool-cases (p == b'*')) [
  | inl star ↦
      inl ((==_iff p _).0 star, ([], [], refl, glob_seg_recurse_sound pat [] (ground arith)))
  | inr plain ↦ ground arith
]
glob_seg_recurse_sound (p ∷ pat) (s ∷ seg) h = elim (Bool-cases (p == b'*')) [
  | inl star ↦ elim (Bool-cases (glob_seg_recurse pat (s ∷ seg))) [
    | inl skip ↦
        inl ((==_iff p _).0 star, ([], s ∷ seg, refl, glob_seg_recurse_sound pat (s ∷ seg) skip))
    | inr longer ↦
        longer_run p s pat seg ((==_iff p _).0 star)
          (glob_seg_recurse_sound (p ∷ pat) seg (ground arith))
  ]
  | inr plain ↦
      inr (ground arith, (seg, ground arith, glob_seg_recurse_sound pat seg (ground arith)))
]

glob_seg_recurse_complete :
    (pat seg : List ℕ) → SegmentMatches pat seg → glob_seg_recurse pat seg ≡ true
unfolding glob_seg_recurse
glob_seg_recurse_complete [] [] m = refl
glob_seg_recurse_complete [] (s ∷ seg) m = cc
glob_seg_recurse_complete (p ∷ pat) [] (inl (star, ([], rest, e, m))) =
    ground (arith, glob_seg_recurse_complete pat [] (rw e m))
glob_seg_recurse_complete (p ∷ pat) [] (inl (star, (r ∷ run, rest, e, m))) = cc
glob_seg_recurse_complete (p ∷ pat) [] (inr (plain, (rest, e, m))) = cc
glob_seg_recurse_complete (p ∷ pat) (s ∷ seg) (inl (star, ([], rest, e, m))) =
    ground (arith, glob_seg_recurse_complete pat (s ∷ seg) (rw e m))
glob_seg_recurse_complete (p ∷ pat) (s ∷ seg) (inl (star, (r ∷ run, rest, e, m))) =
    ground
      (arith, glob_seg_recurse_complete (p ∷ pat) seg (inl (star, (run, rest, ground arith, m))))
glob_seg_recurse_complete (p ∷ pat) (s ∷ seg) (inr (plain, (rest, e, m))) =
    let same : seg ≡ rest = cc in ground (arith, glob_seg_recurse_complete pat seg (rw same m))

glob_segment_match_iff :
    (pattern segment : Str)
    → (glob_segment_match pattern segment ≡ true)
      ↔ SegmentMatches (as_bytes pattern) (as_bytes segment)
unfolding glob_segment_match
glob_segment_match_iff pattern segment = (glob_seg_recurse_sound _ _, glob_seg_recurse_complete _ _)

any_suffix_sound :
    (f : List Str → Bool) (path : List Str)
    → any_suffix f path ≡ true
    → (run : List Str) × (rest : List Str) × (path ≡ run ++ rest) × (f rest ≡ true)
unfolding any_suffix
any_suffix_sound f [] h = ([], [], refl, h)
any_suffix_sound f (seg ∷ path) h = elim (Bool-cases (f (seg ∷ path))) [
  | inl here ↦ ([], seg ∷ path, refl, here)
  | inr later ↦
      let (run, rest, e, g) = any_suffix_sound f path (ground arith) in
      (seg ∷ run, rest, ap (◌∷◌ seg) e, g)
]

any_suffix_complete :
    (f : List Str → Bool) (run rest : List Str) → f rest ≡ true → any_suffix f (run ++ rest) ≡ true
unfolding any_suffix
any_suffix_complete f [] [] h = h
any_suffix_complete f [] (seg ∷ rest) h = ground arith
any_suffix_complete f (seg ∷ run) rest h = ground (arith, any_suffix_complete f run rest h)

match_head_sound :
    (f : List Str → Bool) (p : Str) (path : List Str)
    → match_head f p path ≡ true
    → (seg : Str) × (rest : List Str) × (path ≡ seg ∷ rest)
      × (glob_segment_match p seg ≡ true)
      × (f rest ≡ true)
unfolding match_head
match_head_sound f p [] h = cc
match_head_sound f p (seg ∷ path) h = (seg, path, refl, ground arith, ground arith)

glob_match_segments_sound :
    (pattern path : List Str) → glob_match_segments pattern path ≡ true → PathMatches pattern path
unfolding glob_match_segments
glob_match_segments_sound [] [] h = refl
glob_match_segments_sound [] (seg ∷ path) h = cc
glob_match_segments_sound (p ∷ pattern) path h = elim (Bool-cases (str_eq p double_star)) [
  | inl star ↦
      let (run, rest, e, g) = any_suffix_sound (glob_match_segments pattern) path (ground arith) in
      inl ((str_eq_iff p _).0 star, (run, rest, e, glob_match_segments_sound pattern rest g))
  | inr plain ↦
      let (seg, rest, e, m, g) =
        match_head_sound (glob_match_segments pattern) p path (ground arith) in
      inr (
        ground (arith, str_eq_iff p double_star),
        (
          seg,
          rest,
          e,
          (glob_segment_match_iff p seg).0 m,
          glob_match_segments_sound pattern rest g,
        ),
      )
]

glob_match_segments_complete :
    (pattern path : List Str) → PathMatches pattern path → glob_match_segments pattern path ≡ true
unfolding glob_match_segments match_head
glob_match_segments_complete [] path m = rw m
glob_match_segments_complete (p ∷ pattern) path (inl (star, (run, rest, e, m))) =
    rw (e, (str_eq_iff p double_star).1 star)
      (any_suffix_complete (glob_match_segments pattern) run rest
        (glob_match_segments_complete pattern rest m))
glob_match_segments_complete (p ∷ pattern) path (inr (plain, (seg, rest, e, s, m))) =
    let differs : str_eq p double_star ≡ false = ground (arith, str_eq_iff p double_star) in
    rw (e, differs, (glob_segment_match_iff p seg).1 s)
      (glob_match_segments_complete pattern rest m)

-- `glob_match` answers true exactly when the pattern's segments, split at each slash, match the
-- path's segments: `**` stands for any run of segments (an empty one too), and every other segment
-- for one segment, in which a star stands for any run of bytes and any other byte for itself.
pub glob_match_iff :
    (pattern path : Str)
    → (glob_match pattern path ≡ true) ↔ PathMatches (split b'/' pattern) (split b'/' path)
unfolding glob_match
glob_match_iff pattern path = (glob_match_segments_sound _ _, glob_match_segments_complete _ _)

PathMatches-length :
    (pattern path : List Str)
    → All (λ p. p ≢ double_star) pattern
    → PathMatches pattern path
    → length path ≡ length pattern
PathMatches-length [] path plain m = rw m
PathMatches-length (p ∷ pattern) path (ne, plain) (inl (star, _)) = absurd (ne star)
PathMatches-length (p ∷ pattern) path (ne, plain) (inr (_, (seg, rest, e, _, m))) =
    omega (arith, ap length e, PathMatches-length pattern rest plain m)

-- If no segment of the pattern is `**`, every path that it matches has as many segments as the
-- pattern: a single star never crosses a slash.
pub glob_match-star_in_segment :
    (pattern path : Str)
    → All (λ p. p ≢ double_star) (split b'/' pattern)
    → glob_match pattern path ≡ true
    → length (split b'/' path) ≡ length (split b'/' pattern)
glob_match-star_in_segment pattern path plain h =
    PathMatches-length _ _ plain ((glob_match_iff pattern path).0 h)
