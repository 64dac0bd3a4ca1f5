-- ===== src/LspCpp/Supervisor.antt =====
-- lsp-cpp/src/supervisor.rs: the restart policy of the clangd child. A `Duration` and a clock's
-- reading are nanoseconds, and an operation takes the reading that it makes as its first argument.
-- `as u64` is the remainder by 2 ^ 64, and a subtraction that saturates is the one on numbers.
pub mod Window
pub mod Settled
pub mod Recovery
pub mod Bounds
pub mod Curve
use mcp_tools.Prelude.{
  ℕ, ◌+◌, ◌-◌, ◌*◌, ◌%◌, ◌^◌, min, Bool, Option, none, some, List, [], ◌∷◌, ◌++◌, ltb, leb, ◌≤◌,
  if◌then◌else◌, length, Str, str,
}
use mcp_tools.Prelude.Int.{ℤ}

abbrev pub from_secs : ℕ → ℕ
from_secs s = s * 1_000_000_000

abbrev pub initial_backoff : ℕ
initial_backoff = from_secs 1

abbrev pub max_backoff : ℕ
max_backoff = from_secs 16

abbrev pub healthy_uptime_reset : ℕ
healthy_uptime_reset = from_secs 60

abbrev pub restart_window : ℕ
restart_window = from_secs 300

abbrev pub max_restarts_in_window : ℕ
max_restarts_in_window = 5

-- `Duration::MAX`
abbrev duration_max : ℕ
duration_max = from_secs (2 ^ 64) - 1

pub data SupervisorState : Type 0 where
  stopped : SupervisorState
  running : SupervisorState
  backoff : ℕ → SupervisorState
  failed : SupervisorState

-- An exit code and a signal's number are values of `i32`.
pub data RestartReason : Type 0 where
  initial_spawn : RestartReason
  child_exited : ℤ → RestartReason
  child_signaled : ℤ → RestartReason
  wait_failed : Str → RestartReason
  broken_pipe : RestartReason

unfoldable pub as_tag : RestartReason → Str
as_tag initial_spawn = str "initial_spawn"
as_tag (child_exited code) = str "child_exited"
as_tag (child_signaled signal) = str "child_signaled"
as_tag (wait_failed message) = str "wait_failed"
as_tag broken_pipe = str "broken_pipe"

pub data RetryDecision : Type 0 where
  proceed : RetryDecision
  wait : ℕ → RetryDecision
  fail : ℕ → RetryDecision

pub record SupervisorPolicy : Type 0 where
  pub state : SupervisorState
  pub restart_history_ns : List ℕ
  pub last_spawn_ns : Option ℕ
  pub state_entered_ns : Option ℕ
  pub last_reason : Option RestartReason
  pub total_restarts : ℕ
  pub current_backoff : ℕ
  pub try_wait_total_ns : ℕ

unfoldable pub with_clock : SupervisorPolicy
with_clock = record {
  state = stopped;
  restart_history_ns = [];
  last_spawn_ns = none;
  state_entered_ns = none;
  last_reason = none;
  total_restarts = 0;
  current_backoff = 0;
  try_wait_total_ns = 0;
}

-- `u64::saturating_add`
unfoldable pub record_try_wait_ns : ℕ → SupervisorPolicy → SupervisorPolicy
record_try_wait_ns ns p = record p {
  try_wait_total_ns = min (p.try_wait_total_ns + ns) (2 ^ 64 - 1);
}

-- `Duration::from_nanos(now.saturating_sub(anchor) as u64)`
abbrev pub since : ℕ → ℕ → ℕ
since anchor now = (now - anchor) % 2 ^ 64

abbrev pub since_some : Option ℕ → ℕ → ℕ
since_some none now = 0
since_some (some anchor) now = since anchor now

unfoldable pub current_uptime : ℕ → SupervisorPolicy → ℕ
current_uptime now p = since_some p.state_entered_ns now

abbrev initial_reason : Option ℕ → Option RestartReason → Option RestartReason
initial_reason none reason = some initial_spawn
initial_reason (some spawn_ns) reason = reason

unfoldable pub record_spawn : ℕ → SupervisorPolicy → SupervisorPolicy
record_spawn now p = record p {
  last_spawn_ns = some now;
  state_entered_ns = some now;
  state = running;
  last_reason = initial_reason p.last_spawn_ns p.last_reason;
}

-- A crash stays in the window while it is not older than the window is long.
abbrev pub within : ℕ → ℕ → Bool
within now ts = leb (now - ts) restart_window

abbrev pub retain : (ℕ → Bool) → List ℕ → List ℕ
retain keep [] = []
retain keep (ts ∷ history) = let rest = retain keep history in if keep ts then ts ∷ rest else rest

unfoldable pub prune_history : ℕ → List ℕ → List ℕ
prune_history now history = retain (within now) history

unfoldable pub next_backoff : ℕ → ℕ → ℕ
next_backoff uptime current =
    if leb healthy_uptime_reset uptime
    then initial_backoff
    else if ltb current initial_backoff
    then initial_backoff
    else let doubled = min (current * 2) duration_max in
      if ltb max_backoff doubled then max_backoff else doubled

-- The state behind a crash, by the number of crashes in the window and the new backoff.
unfoldable pub state_after : ℕ → ℕ → SupervisorState
state_after crashes delay = if leb max_restarts_in_window crashes then failed else backoff delay

unfoldable pub record_exit : ℕ → RestartReason → SupervisorPolicy → SupervisorPolicy
unfolding next_backoff prune_history state_after
record_exit now reason p =
    let delay = next_backoff (since_some p.last_spawn_ns now) p.current_backoff in
    let history = prune_history now (p.restart_history_ns ++ now ∷ []) in
    record p {
      total_restarts = (p.total_restarts + 1) % 2 ^ 64;
      last_reason = some reason;
      restart_history_ns = history;
      current_backoff = delay;
      state_entered_ns = some now;
      state = state_after (length history) delay;
    }

abbrev first_or : List ℕ → ℕ → ℕ
first_or [] now = now
first_or (ts ∷ history) now = ts

abbrev pub unwrap_or : Option ℕ → ℕ → ℕ
unwrap_or none now = now
unwrap_or (some entered_at) now = entered_at

-- A failed policy starts over once fewer crashes than the limit are in the window.
unfoldable pub retry_failed : ℕ → SupervisorPolicy → RetryDecision × SupervisorPolicy
unfolding prune_history
retry_failed now p =
    let history = prune_history now p.restart_history_ns in
    if ltb (length history) max_restarts_in_window
    then (
      proceed,
      record p {
        restart_history_ns = history;
        state = stopped;
        state_entered_ns = some now;
        current_backoff = 0;
      },
    )
    else (
      fail (restart_window - since (first_or history now) now),
      record p { restart_history_ns = history },
    )

unfoldable pub retry_backoff : ℕ → ℕ → SupervisorPolicy → RetryDecision × SupervisorPolicy
retry_backoff now duration p =
    let elapsed = since (unwrap_or p.state_entered_ns now) now in
    if leb duration elapsed
    then (proceed, record p { state = stopped; state_entered_ns = some now })
    else (wait (duration - elapsed), p)

unfoldable pub decide : SupervisorState → ℕ → SupervisorPolicy → RetryDecision × SupervisorPolicy
unfolding retry_failed retry_backoff
decide stopped now p = (proceed, p)
decide running now p = (proceed, p)
decide (backoff duration) now p = retry_backoff now duration p
decide failed now p = retry_failed now p

unfoldable pub should_retry : ℕ → SupervisorPolicy → RetryDecision × SupervisorPolicy
unfolding decide
should_retry now p = decide p.state now p

-- What the server tells the policy, with the reading that the policy makes of its clock.
pub data Event : Type 0 where
  spawned : ℕ → Event
  exited : ℕ → RestartReason → Event
  asked : ℕ → Event

abbrev pub time_of : Event → ℕ
time_of (spawned now) = now
time_of (exited now reason) = now
time_of (asked now) = now

unfoldable pub step : SupervisorPolicy → Event → SupervisorPolicy
unfolding record_spawn record_exit should_retry
step p (spawned now) = record_spawn now p
step p (exited now reason) = record_exit now reason p
step p (asked now) = (should_retry now p).1

unfoldable pub run : SupervisorPolicy → List Event → SupervisorPolicy
unfolding step
run p [] = p
run p (e ∷ es) = run (step p e) es

-- The readings never go back, from this one on.
abbrev pub IsMonotone : ℕ → List Event → Type 0
IsMonotone now [] = Unit
IsMonotone now (e ∷ es) = (now ≤ time_of e) × IsMonotone (time_of e) es

-- The last reading.
abbrev pub last_time : ℕ → List Event → ℕ
last_time now [] = now
last_time now (e ∷ es) = last_time (time_of e) es
