-- ===== src/Wtpool/Lease/Glob.antt =====
-- The glob matcher of wtpool/src/lease.rs: `glob_match` and the three functions below it. A pair of
-- an array and an index into it is the list that is left from the index on.
pub mod Spec
use mcp_tools.Prelude.{
  ℕ, Bool, true, false, List, [], ◌∷◌, ◌==◌, if◌then◌else◌, Str, str, str_eq, as_bytes, split,
}

unfoldable pub glob_seg_recurse : List ℕ → List ℕ → Bool
glob_seg_recurse [] [] = true
glob_seg_recurse [] (s ∷ seg) = false
glob_seg_recurse (p ∷ pat) [] =
    let skip = glob_seg_recurse pat [] in if p == b'*' then skip else false
glob_seg_recurse (p ∷ pat) (s ∷ seg) =
    let skip = glob_seg_recurse pat (s ∷ seg) in
    let longer = glob_seg_recurse (p ∷ pat) seg in
    let rest = glob_seg_recurse pat seg in
    if p == b'*' then (if skip then true else longer) else if p == s then rest else false

unfoldable pub glob_segment_match : Str → Str → Bool
unfolding glob_seg_recurse as_bytes
glob_segment_match pattern segment = glob_seg_recurse (as_bytes pattern) (as_bytes segment)

-- The loop `for i in 0..=path.len()`: some suffix of the path passes.
unfoldable pub any_suffix : (List Str → Bool) → List Str → Bool
any_suffix f [] = f []
any_suffix f (seg ∷ path) = if f (seg ∷ path) then true else any_suffix f path

-- The two arms for a plain segment.
unfoldable pub match_head : (List Str → Bool) → Str → List Str → Bool
unfolding glob_segment_match
match_head rest p_seg [] = false
match_head rest p_seg (path_seg ∷ path) =
    if glob_segment_match p_seg path_seg then rest path else false

abbrev pub double_star : Str
double_star = str "**"

unfoldable pub glob_match_segments : List Str → List Str → Bool
unfolding any_suffix match_head str_eq
glob_match_segments [] [] = true
glob_match_segments [] (seg ∷ path) = false
glob_match_segments (p_seg ∷ pattern) path =
    let rest = glob_match_segments pattern in
    if str_eq p_seg double_star then any_suffix rest path else match_head rest p_seg path

unfoldable pub glob_match : Str → Str → Bool
unfolding glob_match_segments split
glob_match pattern path = glob_match_segments (split b'/' pattern) (split b'/' path)
