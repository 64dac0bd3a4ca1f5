-- ===== src/LspCpp/Supervisor/Window.antt =====
-- The policy prunes its history, and still counts the crashes of its whole life in the window.
use mcp_tools.Prelude.{
  ℕ, ◌≤◌, ◌≡◌, ◌↔◌, refl, sym, ◌∙◌, ap, Bool, inl, inr, List, [], ◌∷◌, ◌++◌, append_assoc,
  append-nil, subst, ◌⊎◌, arith, length,
}
use mcp_tools.LspCpp.Supervisor.{
  SupervisorPolicy, SupervisorState, stopped, running, backoff, failed, with_clock, record_spawn,
  record_exit, should_retry, decide, retry_failed, retry_backoff, prune_history, state_after,
  within, retain, RestartReason, Event, spawned, exited, asked, step, run, IsMonotone, last_time,
  max_restarts_in_window,
}

-- When the child crashed, in its whole life.
abbrev pub crash_times : List Event → List ℕ
crash_times [] = []
crash_times (spawned now ∷ es) = crash_times es
crash_times (exited now reason ∷ es) = now ∷ crash_times es
crash_times (asked now ∷ es) = crash_times es

-- How many of them are in the window.
abbrev pub crashes_within : ℕ → List ℕ → ℕ
crashes_within now log = length (retain (within now) log)

retain-retain :
    (t now : ℕ) (log : List ℕ)
    → t ≤ now
    → retain (within now) (retain (within t) log) ≡ retain (within now) log
retain-retain t now [] h = refl
retain-retain t now (ts ∷ log) h = ground (arith, retain-retain t now log h)

retain-append :
    (keep : ℕ → Bool) (xs ys : List ℕ) → retain keep (xs ++ ys) ≡ retain keep xs ++ retain keep ys
retain-append keep [] ys = refl
retain-append keep (x ∷ xs) ys = ground (arith, retain-append keep xs ys)

-- From this time on, the history and the log agree on what is in the window.
IsLogged : ℕ → List ℕ → SupervisorPolicy → Type 0
IsLogged t log p =
    (now : ℕ) → t ≤ now → retain (within now) p.restart_history_ns ≡ retain (within now) log

logged_exit :
    (t now : ℕ) (log : List ℕ) (p : SupervisorPolicy) (reason : RestartReason)
    → t ≤ now
    → IsLogged t log p
    → (record_exit now reason p).restart_history_ns ≡ retain (within now) (log ++ now ∷ [])
unfolding record_exit prune_history IsLogged
logged_exit t now log p reason h logged =
    retain-append (within now) p.restart_history_ns (now ∷ [])
    ∙ (ap (λ front. front ++ retain (within now) (now ∷ [])) (logged now h)
        ∙ sym (retain-append (within now) log (now ∷ [])))

-- A crash is judged by the count of the crashes that the window holds.
exit_state :
    (t now : ℕ) (log : List ℕ) (p : SupervisorPolicy) (reason : RestartReason)
    → t ≤ now
    → IsLogged t log p
    → ((record_exit now reason p).state ≡ failed)
      ↔ (max_restarts_in_window ≤ crashes_within now (log ++ now ∷ []))
unfolding record_exit state_after
exit_state t now log p reason h logged =
    let count = ap length (logged_exit t now log p reason h logged) in ground arith

exited-IsLogged :
    (t now : ℕ) (log : List ℕ) (p : SupervisorPolicy) (reason : RestartReason)
    → t ≤ now
    → IsLogged t log p
    → IsLogged now (log ++ now ∷ []) (record_exit now reason p)
unfolding IsLogged
exited-IsLogged t now log p reason h logged later le =
    ap (retain (within later)) (logged_exit t now log p reason h logged)
    ∙ retain-retain now later (log ++ now ∷ []) le

pruned-IsLogged :
    (t now : ℕ) (log : List ℕ) (p q : SupervisorPolicy)
    → t ≤ now
    → q.restart_history_ns ≡ prune_history now p.restart_history_ns
    → IsLogged t log p
    → IsLogged now log q
unfolding IsLogged prune_history
pruned-IsLogged t now log p q h e logged later le =
    ap (retain (within later)) e
    ∙ (retain-retain now later p.restart_history_ns le ∙ logged later (omega arith))

kept-IsLogged :
    (t now : ℕ) (log : List ℕ) (p q : SupervisorPolicy)
    → t ≤ now
    → q.restart_history_ns ≡ p.restart_history_ns
    → IsLogged t log p
    → IsLogged now log q
unfolding IsLogged
kept-IsLogged t now log p q h e logged later le =
    ap (retain (within later)) e ∙ logged later (omega arith)

-- A question leaves the history, or prunes it.
asked_history :
    (now : ℕ) (s : SupervisorState) (p : SupervisorPolicy)
    → ((decide s now p).1.restart_history_ns ≡ p.restart_history_ns)
      ⊎ ((decide s now p).1.restart_history_ns ≡ prune_history now p.restart_history_ns)
unfolding decide retry_failed retry_backoff
asked_history now stopped p = inl refl
asked_history now running p = inl refl
asked_history now (backoff duration) p = inl (ground arith)
asked_history now failed p = inr (ground arith)

asked-IsLogged :
    (t now : ℕ) (log : List ℕ) (p : SupervisorPolicy)
    → t ≤ now
    → IsLogged t log p
    → IsLogged now log (should_retry now p).1
unfolding should_retry
asked-IsLogged t now log p h logged = elim (asked_history now p.state p) [
  | inl kept ↦ kept-IsLogged t now log p (decide p.state now p).1 h kept logged
  | inr pruned ↦ pruned-IsLogged t now log p (decide p.state now p).1 h pruned logged
]

run-IsLogged :
    (t : ℕ) (log : List ℕ) (p : SupervisorPolicy) (es : List Event)
    → IsMonotone t es
    → IsLogged t log p
    → IsLogged (last_time t es) (log ++ crash_times es) (run p es)
unfolding run step record_spawn
run-IsLogged t log p [] m logged = subst (λ whole. IsLogged t whole p) (sym (append-nil log)) logged
run-IsLogged t log p (spawned now ∷ es) (h, m) logged =
    run-IsLogged now log (record_spawn now p) es m
      (kept-IsLogged t now log p (record_spawn now p) h refl logged)
run-IsLogged t log p (exited now reason ∷ es) (h, m) logged =
    subst (λ whole. IsLogged (last_time now es) whole (run (record_exit now reason p) es))
      (append_assoc log (now ∷ []) (crash_times es))
      (run-IsLogged now (log ++ now ∷ []) (record_exit now reason p) es m
        (exited-IsLogged t now log p reason h logged))
run-IsLogged t log p (asked now ∷ es) (h, m) logged =
    run-IsLogged now log (should_retry now p).1 es m (asked-IsLogged t now log p h logged)

-- Whatever the server told a new policy, on a clock that does not go back: a crash makes it give up
-- if and only if it is the fifth crash at least of the child's whole life that lies in the window
-- of 300 s before it, although the policy forgets the crashes that it pruned.
pub record_exit-failed_iff :
    (es : List Event) (now : ℕ) (reason : RestartReason)
    → IsMonotone 0 es
    → last_time 0 es ≤ now
    → ((record_exit now reason (run with_clock es)).state ≡ failed)
      ↔ (max_restarts_in_window ≤ crashes_within now (crash_times es ++ now ∷ []))
unfolding with_clock IsLogged
record_exit-failed_iff es now reason m h =
    let logged = run-IsLogged 0 [] with_clock es m (λ later le. refl) in
    exit_state (last_time 0 es) now (crash_times es) (run with_clock es) reason h logged
