-- ===== src/CodexStdio/Codex/Sandbox.antt =====
-- codex-stdio/src/codex.rs: when Codex leaves its sandbox.
use mcp_tools.Prelude.{
  ℕ, ◌≡◌, refl, Bool, true, false, Option, none, some, List, [], ◌∷◌, Str, str_eq, any, ◌||◌,
}
use mcp_tools.CodexStdio.Codex.{build_codex_exec_args, bypass_flag}

-- Whether an argument is among those of a command.
abbrev pub has_arg : Str → List Str → Bool
has_arg name args = any (str_eq name) args

or_true : (b : Bool) → (b || true) ≡ true
or_true true = refl
or_true false = refl

-- Codex is told to leave its sandbox exactly where the bypass is asked for, if no path and no model is
-- named like that flag.
pub build_codex_exec_args-sandbox :
    (worktree_path out_path model : Str) (max_tokens : Option ℕ) (bypass_sandbox : Bool)
    → has_arg bypass_flag (worktree_path ∷ out_path ∷ model ∷ []) ≡ false
    → has_arg bypass_flag
        (build_codex_exec_args worktree_path out_path model max_tokens bypass_sandbox)
      ≡ bypass_sandbox
unfolding build_codex_exec_args any str_eq
build_codex_exec_args-sandbox worktree_path out_path model none true h =
    or_true (str_eq bypass_flag worktree_path)
build_codex_exec_args-sandbox worktree_path out_path model none false h = h
build_codex_exec_args-sandbox worktree_path out_path model (some n) true h =
    or_true (str_eq bypass_flag worktree_path)
build_codex_exec_args-sandbox worktree_path out_path model (some n) false h = h
