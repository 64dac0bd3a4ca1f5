-- ===== src/CodexStdio/RunTask/NoParent.antt =====
-- A path that is resolved by its text alone: no `..` is left of one that leads into a directory.
use mcp_tools.Prelude.{
  ◌≡◌, refl, true, Bool-cases, ◌⊎◌, inl, inr, List, [], ◌∷◌, All, Str, str, str_eq, is_empty, ◌||◌,
  split,
}
use mcp_tools.CodexStdio.Paths.{
  Component, root_dir, cur_dir, parent_dir, normal, component_of, components_within, components,
  is_absolute, push, resolve_onto, reverse_onto, lexical_resolve,
}
use mcp_tools.CodexStdio.RunTask.Fences.{IsInside}

abbrev pub IsName : Component → Type 0
IsName parent_dir = ⊥
IsName _ = Unit

-- What stands behind the root of an absolute path.
abbrev IsStep : Component → Type 0
IsStep (normal name) = Unit
IsStep parent_dir = Unit
IsStep _ = ⊥

-- Parents that could not be taken away stand right behind the root.
abbrev IsStuck : List Component → Type 0
IsStuck (parent_dir ∷ out) = IsStuck out
IsStuck (root_dir ∷ []) = Unit
IsStuck _ = ⊥

abbrev IsTidy : List Component → Type 0
IsTidy (normal name ∷ out) = IsTidy out
IsTidy (parent_dir ∷ out) = IsStuck out
IsTidy (root_dir ∷ []) = Unit
IsTidy _ = ⊥

component_of-IsStep : (piece : Str) → IsStep (component_of piece)
component_of-IsStep piece = elim (Bool-cases (str_eq piece (str ".."))) [
  | inl e ↦ rw e tt
  | inr e ↦ rw e tt
]

components_within-IsStep : (pieces : List Str) → All IsStep (components_within pieces)
components_within-IsStep [] = tt
components_within-IsStep (piece ∷ rest) =
    let ih = components_within-IsStep rest in
    elim (Bool-cases (is_empty piece || str_eq piece (str "."))) [
      | inl e ↦ rw e ih
      | inr e ↦ rw e (component_of-IsStep piece, ih)
    ]

push-IsTidy : (c : Component) (out : List Component) → IsStep c → IsTidy out → IsTidy (push c out)
push-IsTidy (normal name) out s t = t
push-IsTidy parent_dir (normal name ∷ out) s t = t
push-IsTidy parent_dir (parent_dir ∷ out) s t = t
push-IsTidy parent_dir (root_dir ∷ []) s t = tt
push-IsTidy parent_dir (root_dir ∷ c ∷ out) s t = absurd t
push-IsTidy parent_dir (cur_dir ∷ out) s t = absurd t
push-IsTidy parent_dir [] s t = absurd t
push-IsTidy root_dir out s t = absurd s
push-IsTidy cur_dir out s t = absurd s

resolve_onto-IsTidy :
    (out path : List Component) → All IsStep path → IsTidy out → IsTidy (resolve_onto out path)
resolve_onto-IsTidy out [] s t = t
resolve_onto-IsTidy out (c ∷ path) s t =
    resolve_onto-IsTidy (push c out) path s.1 (push-IsTidy c out s.0 t)

stuck_front :
    (acc out : List Component)
    → IsStuck out
    → (rest : List Component) × (reverse_onto (parent_dir ∷ acc) out ≡ root_dir ∷ parent_dir ∷ rest)
stuck_front acc (parent_dir ∷ out) s = stuck_front (parent_dir ∷ acc) out s
stuck_front acc (root_dir ∷ []) s = (acc, refl)
stuck_front acc (root_dir ∷ c ∷ out) s = absurd s
stuck_front acc (cur_dir ∷ out) s = absurd s
stuck_front acc (normal name ∷ out) s = absurd s
stuck_front acc [] s = absurd s

-- The parents are gone, or the first one stands behind the root.
tidy_front :
    (acc out : List Component)
    → IsTidy out
    → All IsName acc
    → All IsName (reverse_onto acc out)
      ⊎ ((rest : List Component) × (reverse_onto acc out ≡ root_dir ∷ parent_dir ∷ rest))
tidy_front acc (normal name ∷ out) t a = tidy_front (normal name ∷ acc) out t (tt, a)
tidy_front acc (parent_dir ∷ out) t a = inr (stuck_front acc out t)
tidy_front acc (root_dir ∷ []) t a = inl (tt, a)
tidy_front acc (root_dir ∷ c ∷ out) t a = absurd t
tidy_front acc (cur_dir ∷ out) t a = absurd t
tidy_front acc [] t a = absurd t

front_differs :
    (name : Str) (base rest : List Component)
    → IsInside (root_dir ∷ normal name ∷ base) (root_dir ∷ parent_dir ∷ rest)
    → ⊥
front_differs name base rest (below, e) = absurd cc

-- An absolute path that is resolved by its text alone, and that leads into a directory other than the
-- root, is left without a `..`: it cannot leave that directory on the way.
pub lexical_resolve-no_parent :
    (path name : Str) (base : List Component)
    → is_absolute path ≡ true
    → IsInside (root_dir ∷ normal name ∷ base) (lexical_resolve (components path))
    → All IsName (lexical_resolve (components path))
unfolding lexical_resolve components
lexical_resolve-no_parent path name base a inside =
    let behind_root = components_within (split b'/' path) in
    let tidy =
      resolve_onto-IsTidy (root_dir ∷ []) behind_root (components_within-IsStep (split b'/' path))
        tt in
    elim (tidy_front [] (resolve_onto (root_dir ∷ []) behind_root) tidy tt) [
      | inl names ↦ rw a names
      | inr (rest, e) ↦
          absurd (let there = rw (a, e) at inside in front_differs name base rest there)
    ]
