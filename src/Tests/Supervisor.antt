-- ===== src/Tests/Supervisor.antt =====
-- Runs of lsp-cpp/src/supervisor.rs: a child that crashes five times in a row.
use mcp_tools.Prelude.{
  ◌+◌, ◌-◌, ◌≤◌, ◌≡◌, refl, ◌↔◌, List, [], ◌∷◌, ◌++◌, arith, ltb, if◌then◌else◌,
}
use mcp_tools.Prelude.Int.{pos}
use mcp_tools.LspCpp.Supervisor.{
  failed, with_clock, record_spawn, record_exit, should_retry, child_exited, broken_pipe, Event,
  spawned, exited, asked, run, IsMonotone, from_secs, proceed, wait, fail, max_restarts_in_window,
}
use mcp_tools.LspCpp.Supervisor.Window.{crash_times, crashes_within, record_exit-failed_iff}
use mcp_tools.LspCpp.Supervisor.Recovery.{should_retry-proceeds, should_retry-exact}
use mcp_tools.LspCpp.Supervisor.Bounds.{IsBounded, run-new-IsBounded}
use mcp_tools.LspCpp.Supervisor.Curve.{Cycle, events_of}

-- A crash 10 s after the spawn, and a question half a second later.
abbrev one_crash : List Event
one_crash =
    spawned (from_secs 5)
    ∷ exited (from_secs 15) (child_exited (pos 1))
    ∷ asked (from_secs 15 + 500_000_000)
    ∷ []

one_crash-IsMonotone : IsMonotone 0 one_crash
one_crash-IsMonotone = (omega arith, (omega arith, (omega arith, tt)))

record_exit-failed_iff_example :
    ((record_exit (from_secs 20) broken_pipe (run with_clock one_crash)).state ≡ failed) ↔ (
      max_restarts_in_window
      ≤ crashes_within (from_secs 20) (crash_times one_crash ++ from_secs 20 ∷ []))
record_exit-failed_iff_example =
    record_exit-failed_iff one_crash (from_secs 20) broken_pipe one_crash-IsMonotone (omega arith)

should_retry-proceeds_example :
    (should_retry (from_secs 400) (run with_clock one_crash)).0 ≡ proceed
should_retry-proceeds_example =
    should_retry-proceeds one_crash (from_secs 400) one_crash-IsMonotone (omega arith) (omega arith)

should_retry-exact_example : (should_retry (from_secs 17) (run with_clock one_crash)).0 ≡ (
    if ltb (from_secs 17) (from_secs 15 + 600_000_000 + 400_000_000)
    then wait (from_secs 15 + 600_000_000 + 400_000_000 - from_secs 17)
    else proceed)
unfolding with_clock run record_spawn record_exit should_retry
should_retry-exact_example =
    should_retry-exact one_crash (from_secs 15 + 600_000_000) (from_secs 17) 400_000_000
      one_crash-IsMonotone (omega arith) (omega arith) (omega arith) refl

run-new-IsBounded_example : IsBounded (run with_clock one_crash)
run-new-IsBounded_example = run-new-IsBounded one_crash

abbrev cycle : Cycle
cycle = record { spawned_at = 10; crashed_at = 20; reason = broken_pipe }

abbrev five : List Cycle
five = cycle ∷ cycle ∷ cycle ∷ cycle ∷ cycle ∷ []

-- The fifth crash makes the policy give up, for the rest of the window.
five_crashes : (run with_clock (events_of five)).state ≡ failed
unfolding with_clock run record_spawn record_exit
five_crashes = refl

after_five :
    (should_retry (from_secs 100) (run with_clock (events_of five))).0 ≡ fail (from_secs 200 + 20)
unfolding with_clock run record_spawn record_exit should_retry
after_five = refl
