-- ===== src/CodexStdio/RunTask/Reduced.antt =====
-- Where a path leads by its text: a name goes away with the `..` right behind it, and nothing else does
-- but dots.
use mcp_tools.Prelude.{◌≡◌, refl, ap, ◌∙◌, subst, ◌↔◌, List, [], ◌∷◌, ◌++◌, append-nil, Str}
use mcp_tools.CodexStdio.Paths.{
  Component, root_dir, cur_dir, parent_dir, normal, push, resolve_onto, reverse_onto,
  lexical_resolve,
}

-- One dot is erased, or one name with the parent behind it.
pub data Erases : List Component → List Component → Type 0 where
  dot : (rest : List Component) → Erases (cur_dir ∷ rest) rest
  pair : (name : Str) (rest : List Component) → Erases (normal name ∷ parent_dir ∷ rest) rest
  behind :
      (c : Component) (path shorter : List Component)
      → Erases path shorter
      → Erases (c ∷ path) (c ∷ shorter)

pub data LeadsTo : List Component → List Component → Type 0 where
  here : (path : List Component) → LeadsTo path path
  next :
      (path shorter place : List Component)
      → Erases path shorter
      → LeadsTo shorter place
      → LeadsTo path place

abbrev IsNoDot : Component → Type 0
IsNoDot cur_dir = ⊥
IsNoDot _ = Unit

-- The component does not go away with what stands behind it.
abbrev Stays : Component → List Component → Type 0
Stays (normal name) (parent_dir ∷ rest) = ⊥
Stays _ _ = Unit

-- Nothing is left to erase.
abbrev pub IsReduced : List Component → Type 0
IsReduced [] = Unit
IsReduced (c ∷ rest) = IsNoDot c × Stays c rest × IsReduced rest

-- The same of a path that stands with its last component first.
abbrev Follows : Component → List Component → Type 0
Follows parent_dir (normal name ∷ out) = ⊥
Follows _ _ = Unit

abbrev IsReducedBack : List Component → Type 0
IsReducedBack [] = Unit
IsReducedBack (c ∷ out) = IsNoDot c × Follows c out × IsReducedBack out

abbrev Joins : List Component → List Component → Type 0
Joins [] rest = Unit
Joins (c ∷ out) rest = Stays c rest

push-IsReducedBack :
    (c : Component) (out : List Component) → IsReducedBack out → IsReducedBack (push c out)
push-IsReducedBack root_dir out r = (tt, tt, r)
push-IsReducedBack cur_dir out r = r
push-IsReducedBack (normal name) out r = (tt, tt, r)
push-IsReducedBack parent_dir (normal name ∷ out) (n, f, r) = r
push-IsReducedBack parent_dir [] r = (tt, tt, r)
push-IsReducedBack parent_dir (root_dir ∷ out) r = (tt, tt, r)
push-IsReducedBack parent_dir (cur_dir ∷ out) r = (tt, tt, r)
push-IsReducedBack parent_dir (parent_dir ∷ out) r = (tt, tt, r)

resolve_onto-IsReducedBack :
    (out path : List Component) → IsReducedBack out → IsReducedBack (resolve_onto out path)
resolve_onto-IsReducedBack out [] r = r
resolve_onto-IsReducedBack out (c ∷ path) r =
    resolve_onto-IsReducedBack (push c out) path (push-IsReducedBack c out r)

kept_in_front :
    (c d : Component) (out rest : List Component) → Follows c (d ∷ out) → Stays d (c ∷ rest)
kept_in_front c root_dir out rest f = tt
kept_in_front c cur_dir out rest f = tt
kept_in_front c parent_dir out rest f = tt
kept_in_front parent_dir (normal name) out rest f = f
kept_in_front root_dir (normal name) out rest f = tt
kept_in_front cur_dir (normal name) out rest f = tt
kept_in_front (normal other) (normal name) out rest f = tt

reverse_onto-IsReduced :
    (rest out : List Component)
    → IsReduced rest
    → IsReducedBack out
    → Joins out rest
    → IsReduced (reverse_onto rest out)
reverse_onto-IsReduced rest [] r b j = r
reverse_onto-IsReduced rest (c ∷ []) r b j = (b.0, j, r)
reverse_onto-IsReduced rest (c ∷ d ∷ out) r (n, f, b) j =
    reverse_onto-IsReduced (c ∷ rest) (d ∷ out) (n, j, r) b (kept_in_front c d out rest f)

Erases-reverse_onto :
    (path shorter out : List Component)
    → Erases path shorter
    → Erases (reverse_onto path out) (reverse_onto shorter out)
Erases-reverse_onto path shorter [] e = e
Erases-reverse_onto path shorter (c ∷ out) e =
    Erases-reverse_onto (c ∷ path) (c ∷ shorter) out (behind c path shorter e)

resolve_onto-LeadsTo :
    (out path : List Component)
    → LeadsTo (reverse_onto path out) (reverse_onto [] (resolve_onto out path))
resolve_onto-LeadsTo out [] = here _
resolve_onto-LeadsTo out (root_dir ∷ path) = resolve_onto-LeadsTo (root_dir ∷ out) path
resolve_onto-LeadsTo out (normal name ∷ path) = resolve_onto-LeadsTo (normal name ∷ out) path
resolve_onto-LeadsTo out (cur_dir ∷ path) =
    next _ _ _ (Erases-reverse_onto _ _ out (dot path)) (resolve_onto-LeadsTo out path)
resolve_onto-LeadsTo (normal name ∷ out) (parent_dir ∷ path) =
    next _ _ _ (Erases-reverse_onto _ _ out (pair name path)) (resolve_onto-LeadsTo out path)
resolve_onto-LeadsTo [] (parent_dir ∷ path) = resolve_onto-LeadsTo (parent_dir ∷ []) path
resolve_onto-LeadsTo (root_dir ∷ out) (parent_dir ∷ path) =
    resolve_onto-LeadsTo (parent_dir ∷ root_dir ∷ out) path
resolve_onto-LeadsTo (cur_dir ∷ out) (parent_dir ∷ path) =
    resolve_onto-LeadsTo (parent_dir ∷ cur_dir ∷ out) path
resolve_onto-LeadsTo (parent_dir ∷ out) (parent_dir ∷ path) =
    resolve_onto-LeadsTo (parent_dir ∷ parent_dir ∷ out) path

-- What is erased makes no difference.
resolve_onto-Erases :
    (out : List Component) {path shorter : List Component}
    → Erases path shorter
    → resolve_onto out path ≡ resolve_onto out shorter
resolve_onto-Erases out (dot rest) = refl
resolve_onto-Erases out (pair name rest) = refl
resolve_onto-Erases out (behind c path shorter e) = resolve_onto-Erases (push c out) e

lexical_resolve-LeadsTo :
    {path place : List Component}
    → LeadsTo path place
    → lexical_resolve path ≡ lexical_resolve place
unfolding lexical_resolve
lexical_resolve-LeadsTo (here path) = refl
lexical_resolve-LeadsTo (next path shorter place e l) =
    ap (reverse_onto []) (resolve_onto-Erases [] e) ∙ lexical_resolve-LeadsTo l

push-stays :
    (c : Component) (out rest : List Component)
    → IsNoDot c
    → Joins out (c ∷ rest)
    → push c out ≡ c ∷ out
push-stays root_dir out rest n j = refl
push-stays (normal name) out rest n j = refl
push-stays cur_dir out rest n j = absurd n
push-stays parent_dir [] rest n j = refl
push-stays parent_dir (root_dir ∷ out) rest n j = refl
push-stays parent_dir (cur_dir ∷ out) rest n j = refl
push-stays parent_dir (parent_dir ∷ out) rest n j = refl
push-stays parent_dir (normal name ∷ out) rest n j = absurd j

resolve_onto-IsReduced :
    (out path : List Component)
    → IsReduced path
    → Joins out path
    → resolve_onto out path ≡ reverse_onto out path
resolve_onto-IsReduced out [] r j = refl
resolve_onto-IsReduced out (c ∷ path) (n, s, r) j =
    ap (λ o. resolve_onto o path) (push-stays c out path n j)
    ∙ resolve_onto-IsReduced (c ∷ out) path r s

reverse_onto_twice :
    (rest out path : List Component)
    → reverse_onto rest (reverse_onto out path) ≡ reverse_onto (path ++ rest) out
reverse_onto_twice rest out [] = refl
reverse_onto_twice rest out (c ∷ path) = reverse_onto_twice rest (c ∷ out) path

lexical_resolve-IsReduced : (path : List Component) → IsReduced path → lexical_resolve path ≡ path
unfolding lexical_resolve
lexical_resolve-IsReduced path r =
    ap (reverse_onto []) (resolve_onto-IsReduced [] path r tt)
    ∙ (reverse_onto_twice [] [] path ∙ append-nil path)

nothing_behind : (out : List Component) → Joins out []
nothing_behind [] = tt
nothing_behind (root_dir ∷ out) = tt
nothing_behind (cur_dir ∷ out) = tt
nothing_behind (parent_dir ∷ out) = tt
nothing_behind (normal name ∷ out) = tt

resolved :
    (path : List Component) → LeadsTo path (lexical_resolve path) × IsReduced (lexical_resolve path)
unfolding lexical_resolve
resolved path = (
  resolve_onto-LeadsTo [] path,
  reverse_onto-IsReduced [] (resolve_onto [] path) tt (resolve_onto-IsReducedBack [] path tt)
      (nothing_behind (resolve_onto [] path)),
)

-- A path is resolved by its text to the place that it leads to: what is left when dots, and names with
-- a `..` right behind them, are erased one by one until there is nothing to erase.
pub lexical_resolve_iff :
    (path place : List Component)
    → (lexical_resolve path ≡ place) ↔ (LeadsTo path place × IsReduced place)
lexical_resolve_iff path place = (
  λ e. subst (λ p. LeadsTo path p × IsReduced p) e (resolved path),
  λ (l, r). lexical_resolve-LeadsTo l ∙ lexical_resolve-IsReduced place r,
)
