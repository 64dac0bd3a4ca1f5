-- ===== src/LspCpp/Supervisor/Curve.antt =====
-- The backoff that the supervisor's policy comes to when the child crashes time after time.
use mcp_tools.Prelude.{ℕ, zero, suc, ◌^◌, min, ◌<◌, List, [], ◌∷◌}
use mcp_tools.LspCpp.Supervisor.{
  RestartReason, Event, spawned, exited, from_secs, healthy_uptime_reset, max_backoff, since,
}

-- A child that was spawned and crashed, with the two readings of the clock.
pub record Cycle : Type 0 where
  pub spawned_at : ℕ
  pub crashed_at : ℕ
  pub reason : RestartReason

abbrev pub events_of : List Cycle → List Event
events_of [] = []
events_of (c ∷ cs) = spawned c.spawned_at ∷ exited c.crashed_at c.reason ∷ events_of cs

abbrev pub IsUnhealthy : Cycle → Type 0
IsUnhealthy c = since c.spawned_at c.crashed_at < healthy_uptime_reset

-- The backoff behind so many crashes in a row.
abbrev pub curve : ℕ → ℕ
curve zero = 0
curve (suc n) = min (from_secs (2 ^ n)) max_backoff
