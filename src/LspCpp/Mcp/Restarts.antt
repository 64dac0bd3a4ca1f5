-- ===== src/LspCpp/Mcp/Restarts.antt =====
-- What the supervisor counts of the calls that are let through.
use mcp_tools.Prelude.{ℕ, ◌≡◌, refl, Bool, true, false, Option, none, some, Str}
use mcp_tools.Prelude.Result.{Result, ok, err}
use mcp_tools.Prelude.Action.{Action}
use mcp_tools.Prelude.Json.{Json}
use mcp_tools.LspCpp.Error.{ShimError, IoError}
use mcp_tools.LspCpp.Backend.{LspBackend}
use mcp_tools.LspCpp.Supervisor.{SupervisorState, running, RestartReason}
use mcp_tools.LspCpp.Mcp.Outcome.{classify_request_error}
use mcp_tools.LspCpp.Mcp.Guards.{probed}
use mcp_tools.LspCpp.Mcp.Calls.{Server, Format, observe}

-- The calls that a probe of the child finds it gone in, and those that fail since it is gone.
abbrev pub gone : Result Bool IoError → ℕ
gone (ok false) = 1
gone _ = 0

abbrev crash_of : Option RestartReason → ℕ
crash_of none = 0
crash_of (some reason) = 1

abbrev pub crashed : (Str → Str) → Result Json ShimError → ℕ
crashed debug (ok payload) = 0
crashed debug (err e) = crash_of (classify_request_error debug e)

-- A call that succeeded tells that the child runs.
abbrev pub IsLearnt : Result Json ShimError → SupervisorState → Type 0
IsLearnt (ok payload) state = state ≡ running
IsLearnt (err e) state = Unit

module _ {W : Type 0} (b : LspBackend W) (format : Format) where
  observe-world :
      (alive : Result Bool IoError) (s : Server W) → (observe b format (alive, s)).world ≡ s.world
  unfolding observe
  observe-world (ok true) s = refl
  observe-world (ok false) s = refl
  observe-world (err e) s = refl

  pub probed-world : (s : Server W) → (probed b format s).world ≡ (b.is_alive s.world).1
  probed-world s = observe-world (b.is_alive s.world).0 _
