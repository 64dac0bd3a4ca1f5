-- ===== src/LspCpp/Supervisor/Bounds.antt =====
-- What holds of the supervisor's policy in every state: its counters, its history and its backoff.
use mcp_tools.Prelude.{
  ℕ, sym, subst, ◌^◌, ◌≤◌, ◌<◌, ◌≡◌, refl, Bool-cases, ◌⊎◌, inl, inr, List, [], ◌∷◌, arith, length,
  leb, ltb,
}
use mcp_tools.LspCpp.Supervisor.{
  SupervisorPolicy, SupervisorState, stopped, running, backoff, failed, with_clock, record_spawn,
  record_exit, should_retry, decide, retry_failed, retry_backoff, prune_history, next_backoff,
  state_after, RestartReason, Event, spawned, exited, asked, step, run, initial_backoff,
  max_restarts_in_window, max_backoff, since, unwrap_or,
}

abbrev pub IsBackoff : ℕ → Type 0
IsBackoff delay = (initial_backoff ≤ delay) × (delay ≤ max_backoff)

-- What a state says of the history and the backoff that stand beside it.
abbrev pub Fits : SupervisorState → ℕ → ℕ → Type 0
Fits (backoff duration) crashes delay =
    (duration ≡ delay) × IsBackoff delay × (crashes < max_restarts_in_window)
Fits failed crashes delay = IsBackoff delay × (max_restarts_in_window ≤ crashes)
Fits _ crashes delay = (delay ≡ 0) ⊎ IsBackoff delay

pub record IsBounded (p : SupervisorPolicy) : Type 0 where
  pub fits : Fits p.state (length p.restart_history_ns) p.current_backoff
  pub counted : p.total_restarts < 2 ^ 64

any_state :
    (s : SupervisorState) (crashes delay : ℕ) → Fits s crashes delay → (delay ≡ 0) ⊎ IsBackoff delay
any_state stopped crashes delay f = f
any_state running crashes delay f = f
any_state (backoff duration) crashes delay f = inr f.1
any_state failed crashes delay f = inr f.0

next_backoff-IsBackoff :
    (uptime current : ℕ)
    → (current ≡ 0) ⊎ IsBackoff current
    → IsBackoff (next_backoff uptime current)
unfolding next_backoff
next_backoff-IsBackoff uptime current (inl e) = ground arith
next_backoff-IsBackoff uptime current (inr e) = ground arith

state_after-Fits :
    (crashes delay : ℕ) → IsBackoff delay → Fits (state_after crashes delay) crashes delay
unfolding state_after
state_after-Fits crashes delay d = elim (Bool-cases (leb max_restarts_in_window crashes)) [
  | inl over ↦ rw over (d, ground arith)
  | inr under ↦ rw under (refl, d, ground arith)
]

spawned-IsBounded : (now : ℕ) (p : SupervisorPolicy) → IsBounded p → IsBounded (record_spawn now p)
unfolding record_spawn
spawned-IsBounded now p b = record { fits = any_state p.state _ _ b.fits; counted = b.counted }

exited-IsBounded :
    (now : ℕ) (reason : RestartReason) (p : SupervisorPolicy)
    → IsBounded p
    → IsBounded (record_exit now reason p)
unfolding record_exit
exited-IsBounded now reason p b = record {
  fits =
      state_after-Fits _ _
        (next_backoff-IsBackoff _ p.current_backoff (any_state p.state _ _ b.fits));
  counted = omega arith;
}

module _ (now : ℕ) (p : SupervisorPolicy) (b : IsBounded p) where
  failed-IsBounded : p.state ≡ failed → IsBounded (retry_failed now p).1
  unfolding retry_failed
  failed-IsBounded e =
      let delay : IsBackoff p.current_backoff =
        (subst (λ s. Fits s (length p.restart_history_ns) p.current_backoff) e b.fits).0 in
      elim (Bool-cases
        (ltb (length (prune_history now p.restart_history_ns)) max_restarts_in_window)) [
          | inl few ↦ rw few (record { fits = inl refl; counted = b.counted })
          | inr many ↦ rw many (record {
            fits =
                subst
                  (λ s. Fits s (length (prune_history now p.restart_history_ns)) p.current_backoff)
                  (sym e) (delay, ground arith);
            counted = b.counted;
          })
        ]

  backoff-IsBounded : (duration : ℕ) → IsBounded (retry_backoff now duration p).1
  unfolding retry_backoff
  backoff-IsBounded duration =
      elim (Bool-cases (leb duration (since (unwrap_or p.state_entered_ns now) now))) [
        | inl over ↦ rw over (record { fits = any_state p.state _ _ b.fits; counted = b.counted })
        | inr early ↦ rw early b
      ]

  asked-IsBounded : (state : SupervisorState) → p.state ≡ state → IsBounded (decide state now p).1
  unfolding decide
  asked-IsBounded stopped e = b
  asked-IsBounded running e = b
  asked-IsBounded (backoff duration) e = backoff-IsBounded duration
  asked-IsBounded failed e = failed-IsBounded e

run-IsBounded : (p : SupervisorPolicy) (es : List Event) → IsBounded p → IsBounded (run p es)
unfolding run step should_retry
run-IsBounded p [] b = b
run-IsBounded p (spawned now ∷ es) b =
    run-IsBounded (record_spawn now p) es (spawned-IsBounded now p b)
run-IsBounded p (exited now reason ∷ es) b =
    run-IsBounded (record_exit now reason p) es (exited-IsBounded now reason p b)
run-IsBounded p (asked now ∷ es) b =
    run-IsBounded (should_retry now p).1 es (asked-IsBounded now p b p.state refl)

-- Whatever the server told a new policy, and whatever its clock reads: the count of restarts fits 64
-- bits, and the backoff lies between 1 and 16 seconds when the policy waits or has given up, while
-- otherwise it may also be zero. A policy that waits does so for the backoff it keeps and holds fewer
-- than five crashes in its history; one that has given up holds five at least.
pub run-new-IsBounded : (es : List Event) → IsBounded (run with_clock es)
unfolding with_clock
run-new-IsBounded es =
    run-IsBounded with_clock es (record { fits = inl refl; counted = omega arith })
