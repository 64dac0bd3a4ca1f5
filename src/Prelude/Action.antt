-- ===== src/Prelude/Action.antt =====
-- Fallible code that changes a state: each action takes the state and gives it back with a result.
use mcp_tools.Prelude.Result.{Result, ok, err}

abbrev pub Action : Type 0 → Type 0 → Type 0 → Type 0
Action W E A = W → Result A E × W

infixl 5 ◌>>=◌ ◌>>◌
-- What comes behind an action that gave this result.
abbrev pub behind : {W E A B : Type 0} → Result A E → (A → Action W E B) → Action W E B
behind (ok a) f w = f a w
behind (err e) f w = (err e, w)

abbrev pub ◌>>=◌ : {W E A B : Type 0} → Action W E A → (A → Action W E B) → Action W E B
(m >>= f) w = behind (m w).0 f (m w).1

abbrev pub ◌>>◌ : {W E B : Type 0} → Action W E (Unit {0}) → Action W E B → Action W E B
m >> k = m >>= λ _. k

-- A question that leaves the state as it is.
abbrev pub reads : {W E A : Type 0} → (W → Result A E) → Action W E A
reads f w = (f w, w)

abbrev pub pure : {W E A : Type 0} → A → Action W E A
pure a w = (ok a, w)
