-- ===== src/Wtpool/Pool/BranchName.antt =====
-- `validate_branch_name` of wtpool/src/pool.rs.
use mcp_tools.Prelude.{
  ℕ, ◌≡◌, ◌≢◌, ◌↔◌, refl, ap, inl, inr, Bool, true, false, not, ◌||◌, Option, none, some, [], ◌∷◌,
  ◌++◌, arith, ◌==◌, if◌then◌else◌, is_empty, All, Str, str, starts_with, contains,
  is_ascii_alphanumeric, Option-cases,
}
use mcp_tools.Prelude.Occurs.{starts_with_iff, contains-Occurs, Occurs-contains}
use mcp_tools.Prelude.Result.{Result, ok, err, ◌>>◌, ensure}
use mcp_tools.Wtpool.Pool.{PoolError, empty_name, leading_dash, double_dot, disallowed_character}

abbrev pub is_branch_char : ℕ → Bool
is_branch_char c =
    is_ascii_alphanumeric c || (c == b'_') || (c == b'-') || (c == b'/') || (c == b'.')

-- `chars().find(...)`: the first character that is not allowed.
unfoldable pub find_bad : Str → Option ℕ
unfolding is_ascii_alphanumeric
find_bad [] = none
find_bad (c ∷ s) = let rest = find_bad s in if is_branch_char c then rest else some c

abbrev no_bad : Str → Option ℕ → Result (Unit {0}) PoolError
no_bad name none = ok tt
no_bad name (some c) = err (disallowed_character name c)

unfoldable pub validate_branch_name : Str → Result (Unit {0}) PoolError
validate_branch_name name = do
  ensure (not (is_empty name)) empty_name
  ensure (not (starts_with (str "-") name)) (leading_dash name)
  ensure (not (contains (str "..") name)) (double_dot name)
  no_bad name (find_bad name)

find_bad_iff : (s : Str) → (find_bad s ≡ none) ↔ All (λ c. is_branch_char c ≡ true) s
unfolding find_bad
find_bad_iff [] = ((λ h. tt), λ h. refl)
find_bad_iff (c ∷ s) = ground (arith, find_bad_iff s)

-- What the check of a branch name asks for.
pub record IsBranchName (name : Str) : Type 0 where
  pub given : name ≢ []
  pub no_dash : (rest : Str) → name ≢ b'-' ∷ rest
  pub no_dots : (front rest : Str) → name ≢ front ++ (b'.' ∷ b'.' ∷ rest)
  pub chars : All (λ c. is_branch_char c ≡ true) name

not-empty : (name : Str) → name ≢ [] → is_empty name ≡ false
not-empty [] h = absurd (h refl)
not-empty (c ∷ name) h = refl

not-true : (b : Bool) → ¬ (b ≡ true) → b ≡ false
not-true true h = absurd (h refl)
not-true false h = refl

-- A branch name passes the check exactly if it is not empty, does not start with a dash, has no two
-- dots in a row, and consists of ASCII letters and digits, `_`, `-`, `/` and `.`.
pub validate_branch_name_iff :
    (name : Str) → (validate_branch_name name ≡ ok tt) ↔ IsBranchName name
unfolding validate_branch_name
validate_branch_name_iff name = (
  λ h. record {
    given = λ e. ground (arith, ap is_empty e);
    no_dash = λ rest e. ground (arith, (starts_with_iff (str "-") name).1 (rest, e));
    no_dots = λ front rest e. ground (arith, Occurs-contains (str "..") name front rest e);
    chars = elim (Option-cases (find_bad name)) [
      | inl fine ↦ (find_bad_iff name).0 fine
      | inr (c, bad) ↦ absurd (ground arith)
    ];
  },
  λ v.
      let given = not-empty name v.given in
      let no_dash : starts_with (str "-") name ≡ false =
        not-true (starts_with (str "-") name)
          λ h. let (rest, e) = (starts_with_iff (str "-") name).0 h in v.no_dash rest e in
      let no_dots : contains (str "..") name ≡ false =
        not-true (contains (str "..") name)
          λ h. let (front, rest, e) = contains-Occurs (str "..") name h in v.no_dots front rest e in
      rw (given, no_dash, no_dots, (find_bad_iff name).1 v.chars) refl,
)
