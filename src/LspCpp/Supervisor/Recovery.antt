-- ===== src/LspCpp/Supervisor/Recovery.antt =====
-- The policy gives a crashed child another try: after a wait it names, and never later than one window.
use mcp_tools.Prelude.{
  ℕ, ◌+◌, ◌-◌, ◌^◌, ◌≤◌, ◌<◌, ◌≡◌, refl, Option, none, some, List, [], ◌∷◌, arith, ltb, All,
  if◌then◌else◌,
}
use mcp_tools.LspCpp.Supervisor.{
  SupervisorPolicy, SupervisorState, stopped, running, backoff, failed, with_clock, should_retry,
  decide, retry_failed, retry_backoff, prune_history, within, retain, Event, run, IsMonotone,
  last_time, restart_window, proceed, wait,
}
use mcp_tools.LspCpp.Supervisor.Settled.{
  IsDated, IsSettled, later-IsSettled, run-IsSettled, new-IsSettled,
}

retain-expired :
    (t now : ℕ) (history : List ℕ)
    → t + restart_window < now
    → All (λ ts. ts ≤ t) history
    → retain (within now) history ≡ []
retain-expired t now [] h all = refl
retain-expired t now (ts ∷ history) h all = ground (arith, retain-expired t now history h all.1)

decide-proceeds :
    (t now : ℕ) (state : SupervisorState) (entered : Option ℕ) (p : SupervisorPolicy)
    → t + restart_window < now
    → now < 2 ^ 64
    → All (λ ts. ts ≤ t) p.restart_history_ns
    → p.state_entered_ns ≡ entered
    → IsDated t state entered
    → (decide state now p).0 ≡ proceed
unfolding decide retry_failed retry_backoff prune_history
decide-proceeds t now stopped entered p h b all e d = refl
decide-proceeds t now running entered p h b all e d = refl
decide-proceeds t now (backoff duration) none p h b all e d = absurd d
decide-proceeds t now (backoff duration) (some entered_at) p h b all e d = rw e (ground arith)
decide-proceeds t now failed entered p h b all e d =
    rw (retain-expired t now p.restart_history_ns h all) refl

-- A question more than 300 s after the last event is answered with `Proceed`.
pub settled-proceeds :
    (t now : ℕ) (p : SupervisorPolicy)
    → IsSettled t p
    → t + restart_window < now
    → now < 2 ^ 64
    → (should_retry now p).0 ≡ proceed
unfolding should_retry IsSettled
settled-proceeds t now p s h b = decide-proceeds t now _ _ p h b s.0 refl s.1

-- Whatever the server told a new policy, on a clock that does not go back: a question more than 300 s
-- after the last event is answered with `Proceed`, so that no crash makes the child unreachable for
-- good. The clock's reading fits 64 bits.
pub should_retry-proceeds :
    (es : List Event) (now : ℕ)
    → IsMonotone 0 es
    → last_time 0 es + restart_window < now
    → now < 2 ^ 64
    → (should_retry now (run with_clock es)).0 ≡ proceed
should_retry-proceeds es now m h b =
    settled-proceeds (last_time 0 es) now (run with_clock es)
      (run-IsSettled 0 with_clock es m new-IsSettled) h b

decide-exact :
    (now later delay : ℕ) (state : SupervisorState) (entered : Option ℕ) (p : SupervisorPolicy)
    → now ≤ later
    → later < 2 ^ 64
    → p.state_entered_ns ≡ entered
    → IsDated now state entered
    → (decide state now p).0 ≡ wait delay
    → (decide state later p).0
      ≡ (if ltb later (now + delay) then wait (now + delay - later) else proceed)
unfolding decide retry_failed retry_backoff prune_history
decide-exact now later delay stopped entered p h b e d w = absurd (ground arith)
decide-exact now later delay running entered p h b e d w = absurd (ground arith)
decide-exact now later delay (backoff duration) none p h b e d w = absurd d
decide-exact now later delay (backoff duration) (some entered_at) p h b e d w =
    let answered = rw e at w in rw e (ground arith)
decide-exact now later delay failed entered p h b e d w = absurd (ground arith)

-- The wait that a question is answered with is exact, as long as the server tells nothing in between: a
-- question that comes before it is over is answered with what is left of it, and one that comes when
-- it is over with `Proceed`. The policy is one that the server can reach on a clock that does not go
-- back, whose readings fit 64 bits.
pub should_retry-exact :
    (es : List Event) (now later delay : ℕ)
    → IsMonotone 0 es
    → last_time 0 es ≤ now
    → now ≤ later
    → later < 2 ^ 64
    → (should_retry now (run with_clock es)).0 ≡ wait delay
    → (should_retry later (run with_clock es)).0
      ≡ (if ltb later (now + delay) then wait (now + delay - later) else proceed)
unfolding should_retry IsSettled
should_retry-exact es now later delay m h le b w =
    let settled =
      later-IsSettled _ now (run with_clock es) h (run-IsSettled 0 with_clock es m new-IsSettled) in
    decide-exact now later delay _ _ (run with_clock es) le b refl settled.1 w
