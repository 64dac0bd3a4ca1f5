-- ===== src/LspCpp/Queue.antt =====
-- lsp-cpp/src/queue.rs: the admission queue. The mutex makes each operation one step, so any number
-- of threads is a sequence of operations on one state. A slot is a token that `try_acquire` hands
-- out; it is dropped once, since it cannot be cloned.
pub mod Admission
use mcp_tools.Prelude.{
  ℕ, suc, ◌+◌, ◌-◌, Bool, true, false, not, Option, none, some, List, [], ◌∷◌, ltb, leb, ◌==◌,
  if◌then◌else◌,
}

abbrev pub default_queue_depth : ℕ
default_queue_depth = 16

pub record QueueState : Type 0 where
  pub capacity : ℕ
  pub in_flight : ℕ

-- `none` is the panic of the assertion.
unfoldable pub new : ℕ → Option QueueState
new capacity = if ltb 0 capacity then some (record { capacity = capacity; in_flight = 0 }) else none

-- The new state, and whether a slot was handed out.
unfoldable pub try_acquire : QueueState → QueueState × Bool
try_acquire state =
    if leb state.capacity state.in_flight
    then (state, false)
    else (record state { in_flight = state.in_flight + 1 }, true)

-- `Slot::drop`, with the subtraction that saturates at zero.
unfoldable pub drop_slot : QueueState → QueueState
drop_slot state = record state { in_flight = state.in_flight - 1 }

-- A request comes, or the holder of a slot drops it. Slots are numbered as they are handed out.
pub data Event : Type 0 where
  request : Event
  finish : ℕ → Event

-- The queue, the slots that are alive, and the number of the next one.
pub record World : Type 0 where
  pub state : QueueState
  pub slots : List ℕ
  pub next_slot : ℕ

abbrev pub remove : ℕ → List ℕ → List ℕ
remove n [] = []
remove n (m ∷ ms) = if n == m then ms else m ∷ remove n ms

abbrev pub holds : ℕ → List ℕ → Bool
holds n [] = false
holds n (m ∷ ms) = if n == m then true else holds n ms

abbrev grant : World → QueueState × Bool → World
grant w (state, true) = record {
  state = state;
  slots = w.next_slot ∷ w.slots;
  next_slot = w.next_slot + 1;
}
grant w (state, false) = record w { state = state }

-- A slot that is not alive cannot be dropped.
unfoldable pub step : World → Event → World
unfolding try_acquire drop_slot
step w request = grant w (try_acquire w.state)
step w (finish n) =
    if holds n w.slots then record w { state = drop_slot w.state; slots = remove n w.slots } else w

unfoldable pub run : World → List Event → World
unfolding step
run w [] = w
run w (e ∷ es) = run (step w e) es

abbrev pub start : QueueState → World
start state = record { state = state; slots = []; next_slot = 0 }
