-- ===== src/LspCpp/Queue/Admission.antt =====
-- The admission queue never lets more than its capacity through, and loses no slot.
use mcp_tools.Prelude.{
  leb, ◌⊎◌, inl, inr, Bool-cases, ◌<◌, ℕ, ◌+◌, ◌≤◌, ◌≡◌, true, false, some, List, [], ◌∷◌, arith,
  length,
}
use mcp_tools.LspCpp.Queue.{
  QueueState, new, try_acquire, drop_slot, Event, request, finish, World, remove, holds, step, run,
  start,
}

-- The count is the number of slots that are alive, and within the capacity.
pub record Inv (capacity : ℕ) (w : World) : Type 0 where
  pub fixed : w.state.capacity ≡ capacity
  pub counted : w.state.in_flight ≡ length w.slots
  pub bounded : w.state.in_flight ≤ capacity

length-remove : (n : ℕ) (ms : List ℕ) → holds n ms ≡ true → length ms ≡ length (remove n ms) + 1
length-remove n [] h = absurd (ground arith)
length-remove n (m ∷ ms) h = ground (arith, length-remove n ms)

step-Inv : (capacity : ℕ) (w : World) (e : Event) → Inv capacity w → Inv capacity (step w e)
unfolding step try_acquire drop_slot
step-Inv capacity w request v = ground arith
step-Inv capacity w (finish n) v = ground (arith, length-remove n w.slots)

run-Inv : (capacity : ℕ) (w : World) (es : List Event) → Inv capacity w → Inv capacity (run w es)
unfolding run
run-Inv capacity w [] v = v
run-Inv capacity w (e ∷ es) v = run-Inv capacity (step w e) es (step-Inv capacity w e v)

-- Whatever the threads do with a new queue, the count of requests in flight is the number of slots
-- that are alive, and at most the capacity that the queue was made with.
pub run-new-Inv :
    (capacity : ℕ) (state : QueueState) (es : List Event)
    → new capacity ≡ some state
    → Inv capacity (run (start state) es)
unfolding new
run-new-Inv capacity state es h =
    run-Inv capacity (start state) es
      (record { fixed = ground arith; counted = ground arith; bounded = ground arith })

-- In a state that the queue can be in, a request is refused and as many slots are alive as the
-- capacity, or it is granted, fewer were alive, and dropping the new slot gives the earlier state back.
pub try_acquire-slots :
    (capacity : ℕ) (w : World)
    → Inv capacity w
    → (((try_acquire w.state).1 ≡ false) × (length w.slots ≡ capacity))
      ⊎ (((try_acquire w.state).1 ≡ true)
          × (length w.slots < capacity)
          × (drop_slot (try_acquire w.state).0 ≡ w.state))
unfolding try_acquire drop_slot
try_acquire-slots capacity w v = elim (Bool-cases (leb w.state.capacity w.state.in_flight)) [
  | inl full ↦ inl (ground arith)
  | inr room ↦ inr (ground arith)
]
