-- ===== src/LspCpp/Supervisor/Settled.antt =====
-- The supervisor never keeps a time of the future, nor a backoff beyond the cap.
use mcp_tools.Prelude.{
  ℕ, ◌≤◌, ◌≡◌, refl, Bool, Bool-cases, inl, inr, Option, none, some, List, [], ◌∷◌, ◌++◌, arith,
  length, leb, ltb, All, All-append,
}
use mcp_tools.LspCpp.Supervisor.{
  SupervisorPolicy, SupervisorState, stopped, running, backoff, failed, with_clock,
  record_try_wait_ns, record_spawn, record_exit, should_retry, decide, retry_failed, retry_backoff,
  prune_history, next_backoff, state_after, within, retain, RestartReason, Event, spawned, exited,
  asked, time_of, step, run, IsMonotone, last_time, max_restarts_in_window, max_backoff, since,
  unwrap_or,
}

-- A policy that waits knows since when, and waits no longer than the cap.
abbrev pub IsDated : ℕ → SupervisorState → Option ℕ → Type 0
IsDated now (backoff duration) (some entered_at) = (entered_at ≤ now) × (duration ≤ max_backoff)
IsDated now (backoff duration) none = ⊥
IsDated now _ _ = Unit

-- Nothing that the policy keeps lies in the future, and no backoff is beyond the cap.
unfoldable pub IsSettled : ℕ → SupervisorPolicy → Type 0
IsSettled now p =
    All (λ ts. ts ≤ now) p.restart_history_ns
    × IsDated now p.state p.state_entered_ns
    × (p.current_backoff ≤ max_backoff)

All-later :
    (t now : ℕ) (history : List ℕ)
    → t ≤ now
    → All (λ ts. ts ≤ t) history
    → All (λ ts. ts ≤ now) history
All-later t now [] h all = tt
All-later t now (ts ∷ history) h all = ground (arith, All-later t now history h all.1)

All-retain :
    (now : ℕ) (keep : ℕ → Bool) (history : List ℕ)
    → All (λ ts. ts ≤ now) history
    → All (λ ts. ts ≤ now) (retain keep history)
All-retain now keep [] all = tt
All-retain now keep (ts ∷ history) all = ground (arith, All-retain now keep history all.1)

pub spawned-IsSettled :
    (t now : ℕ) (p : SupervisorPolicy)
    → t ≤ now
    → IsSettled t p
    → IsSettled now (record_spawn now p)
unfolding IsSettled record_spawn
spawned-IsSettled t now p h s = (All-later t now p.restart_history_ns h s.0, tt, s.2)

next_backoff-le :
    (uptime current : ℕ) → current ≤ max_backoff → next_backoff uptime current ≤ max_backoff
unfolding next_backoff
next_backoff-le uptime current h = ground arith

state_after-IsDated :
    (now crashes delay : ℕ)
    → delay ≤ max_backoff
    → IsDated now (state_after crashes delay) (some now)
unfolding state_after
state_after-IsDated now crashes delay h = elim (Bool-cases (leb max_restarts_in_window crashes)) [
  | inl over ↦ rw over tt
  | inr under ↦ rw under (omega arith, h)
]

pub exited-IsSettled :
    (t now : ℕ) (reason : RestartReason) (p : SupervisorPolicy)
    → t ≤ now
    → IsSettled t p
    → IsSettled now (record_exit now reason p)
unfolding IsSettled record_exit prune_history
exited-IsSettled t now reason p h s =
    let delay = next_backoff-le _ p.current_backoff s.2 in
    (
      All-retain now (within now) (p.restart_history_ns ++ now ∷ []) (
          All-append (λ ts. ts ≤ now) p.restart_history_ns (now ∷ [])
            (All-later t now p.restart_history_ns h s.0) (omega arith, tt)),
      state_after-IsDated now _ _ delay,
      delay,
    )

later-IsDated :
    (t now : ℕ) (s : SupervisorState) (e : Option ℕ) → t ≤ now → IsDated t s e → IsDated now s e
later-IsDated t now stopped e h d = tt
later-IsDated t now running e h d = tt
later-IsDated t now failed e h d = tt
later-IsDated t now (backoff duration) none h d = d
later-IsDated t now (backoff duration) (some entered_at) h d = (omega (arith, d.0), d.1)

pub later-IsSettled : (t now : ℕ) (p : SupervisorPolicy) → t ≤ now → IsSettled t p → IsSettled now p
unfolding IsSettled
later-IsSettled t now p h s = (
  All-later t now p.restart_history_ns h s.0,
  later-IsDated t now p.state p.state_entered_ns h s.1,
  s.2,
)

pruned-IsSettled :
    (now : ℕ) (p : SupervisorPolicy)
    → p.state ≡ failed
    → IsSettled now p
    → IsSettled now (retry_failed now p).1
unfolding IsSettled retry_failed prune_history
pruned-IsSettled now p e s =
    let kept = All-retain now (within now) p.restart_history_ns s.0 in
    elim (Bool-cases
      (ltb (length (retain (within now) p.restart_history_ns)) max_restarts_in_window)) [
        | inl few ↦ rw few (kept, tt, omega arith)
        | inr many ↦ rw many (kept, s.1, s.2)
      ]

backoff-IsSettled :
    (now duration : ℕ) (p : SupervisorPolicy)
    → IsSettled now p
    → IsSettled now (retry_backoff now duration p).1
unfolding IsSettled retry_backoff
backoff-IsSettled now duration p s =
    elim (Bool-cases (leb duration (since (unwrap_or p.state_entered_ns now) now))) [
      | inl over ↦ rw over (s.0, tt, s.2)
      | inr early ↦ rw early s
    ]

pub asked-IsSettled :
    (now : ℕ) (state : SupervisorState) (p : SupervisorPolicy)
    → p.state ≡ state
    → IsSettled now p
    → IsSettled now (decide state now p).1
unfolding decide
asked-IsSettled now stopped p e s = s
asked-IsSettled now running p e s = s
asked-IsSettled now (backoff duration) p e s = backoff-IsSettled now duration p s
asked-IsSettled now failed p e s = pruned-IsSettled now p e s

step-IsSettled :
    (t : ℕ) (p : SupervisorPolicy) (e : Event)
    → t ≤ time_of e
    → IsSettled t p
    → IsSettled (time_of e) (step p e)
unfolding step should_retry
step-IsSettled t p (spawned now) h s = spawned-IsSettled t now p h s
step-IsSettled t p (exited now reason) h s = exited-IsSettled t now reason p h s
step-IsSettled t p (asked now) h s =
    asked-IsSettled now p.state p refl (later-IsSettled t now p h s)

pub run-IsSettled :
    (t : ℕ) (p : SupervisorPolicy) (es : List Event)
    → IsMonotone t es
    → IsSettled t p
    → IsSettled (last_time t es) (run p es)
unfolding run
run-IsSettled t p [] m s = s
run-IsSettled t p (e ∷ es) (h, m) s =
    run-IsSettled (time_of e) (step p e) es m (step-IsSettled t p e h s)

pub new-IsSettled : IsSettled 0 with_clock
unfolding IsSettled with_clock
new-IsSettled = (tt, tt, omega arith)

pub probed-IsSettled :
    (t cost : ℕ) (p : SupervisorPolicy) → IsSettled t p → IsSettled t (record_try_wait_ns cost p)
unfolding IsSettled record_try_wait_ns
probed-IsSettled t cost p s = s
