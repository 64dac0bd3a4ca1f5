-- ===== src/CodexStdio/Health/Agreement.antt =====
-- codex-stdio/src/health.rs: the health tool and the choice of a client agree.
use mcp_tools.Prelude.{ℕ, ◌≡◌, refl, true, false, Option, none, some, [], ◌∷◌, Str, str, str_eq}
use mcp_tools.Prelude.Json.{Json, boolean, text, get, find_field}
use mcp_tools.Prelude.Result.{Result, ok, err}
use mcp_tools.CodexStdio.Codex.{Shell, locate_codex_binary, for_worktree, client_for, exec_client}
use mcp_tools.CodexStdio.Health.{run, probe_transport, payload_of, fixture_variable, probed}

-- What the payload is to say where the choice of a client ends so.
abbrev pub Agrees : {C : Type 0} → Result C Str → Json → Type 0
Agrees (ok client) payload = get (str "available") payload ≡ some (boolean true)
Agrees (err e) payload =
    (get (str "available") payload ≡ some (boolean false))
    × (get (str "reason") payload ≡ some (text e))

module _ {W : Type 0} (shell : Shell W) (worktree_path : Str) (w : W) (latency_ms : ℕ) where
  located-Agrees :
      (located : Result Str Str)
      → Agrees (exec_client shell worktree_path located) (payload_of shell latency_ms located)
  unfolding get find_field str_eq
  located-Agrees (ok binary) = refl
  located-Agrees (err e) = (refl, refl)

  probed-Agrees :
      (fixture : Option Str)
      → Agrees
          (client_for shell worktree_path w fixture)
          (payload_of shell latency_ms (probed shell w fixture))
  unfolding get find_field str_eq
  probed-Agrees none = located-Agrees (locate_codex_binary shell w)
  probed-Agrees (some []) = located-Agrees (locate_codex_binary shell w)
  probed-Agrees (some (c ∷ s)) = refl

  -- The health tool says that Codex is available exactly where a task would be given a client, whatever
  -- its worktree is, and where there is none the tool gives the reason with which the task would fail.
  pub run-for_worktree : Agrees (for_worktree shell worktree_path w) (run shell latency_ms w)
  unfolding run for_worktree probe_transport
  run-for_worktree = probed-Agrees (shell.env fixture_variable)
