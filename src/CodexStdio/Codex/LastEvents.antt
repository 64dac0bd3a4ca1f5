-- ===== src/CodexStdio/Codex/LastEvents.antt =====
-- codex-stdio/src/codex.rs: the answer is made of the last events of a stream, and noise in it is nothing.
use mcp_tools.Prelude.{
  ◌≡◌, refl, ap, sym, ◌∙◌, Bool-cases, inl, inr, true, false, Option, none, some, List, [], ◌∷◌,
  if◌then◌else◌, Str, str, str_eq, str_eq_iff,
}
use mcp_tools.Prelude.Json.{Json, get, get_str, unwrap_or}
use mcp_tools.Prelude.Result.{Result}
use mcp_tools.CodexStdio.Paths.{lines}
use mcp_tools.CodexStdio.RunTask.{Usage}
use mcp_tools.CodexStdio.Codex.Events.{
  ParsedCodexEvents, parse_codex_jsonl, extract_last_agent_message, walk, event_in, on_event,
  on_item, has_type, usage_of, agent_text, skip_or, with_thread, with_usage, or_last, no_events,
}

-- The last value that an event of the list has.
abbrev pub or_value : {A : Type 0} → Option A → Option A → Option A
or_value none d = d
or_value (some a) d = some a

abbrev pub last_of : {A : Type 0} → (Json → Option A) → List Json → Option A
last_of f [] = none
last_of f (v ∷ rest) = or_value (last_of f rest) (f v)

abbrev pub thread_in : Json → Option Str
thread_in v = if has_type (str "thread.started") v then get_str (str "thread_id") v else none

abbrev usage_or_none : Option Json → Option Usage
usage_or_none none = none
usage_or_none (some u) = some (usage_of u)

abbrev pub usage_in : Json → Option Usage
usage_in v = if has_type (str "turn.completed") v then usage_or_none (get (str "usage") v) else none

abbrev pub message_in : Json → Option Str
message_in v = if has_type (str "item.completed") v then agent_text (get (str "item") v) else none

abbrev cons_event : Option Json → List Json → List Json
cons_event none rest = rest
cons_event (some v) rest = v ∷ rest

or_value_assoc :
    {A : Type 0} (x y z : Option A) → or_value (or_value x y) z ≡ or_value x (or_value y z)
or_value_assoc none y z = refl
or_value_assoc (some a) y z = refl

module _ (from_str : Str → Result Json Str) where
  -- The events of a stream, without the lines that hold none.
  abbrev pub events : List Str → List Json
  events [] = []
  events (line ∷ rest) = cons_event (event_in from_str line) (events rest)

  module _ {A B : Type 0} (on : Json → A → A) (f : Json → Option B) (part : A → Option B)
      (on-part : (v : Json) (out : A) → part (on v out) ≡ or_value (f v) (part out)) where
    walk-part :
        (ls : List Str) (out : A)
        → part (walk from_str on ls out) ≡ or_value (last_of f (events ls)) (part out)
    unfolding walk
    walk-part [] out = refl
    walk-part (line ∷ rest) out =
        elim (event_in from_str line)
          as (λ (e : Option Json).
            part (walk from_str on rest (skip_or from_str on e out))
            ≡ or_value (last_of f (cons_event e (events rest))) (part out)) [
              | none ↦ walk-part rest out
              | some v ↦
                  walk-part rest (on v out)
                  ∙ (ap (or_value (last_of f (events rest))) (on-part v out)
                      ∙ sym (or_value_assoc (last_of f (events rest)) (f v) (part out)))
            ]

with_thread-thread :
    (id : Option Str) (out : ParsedCodexEvents)
    → (with_thread id out).thread_id ≡ or_value id out.thread_id
with_thread-thread none out = refl
with_thread-thread (some id) out = refl

with_usage-thread :
    (u : Option Json) (out : ParsedCodexEvents) → (with_usage u out).thread_id ≡ out.thread_id
with_usage-thread none out = refl
with_usage-thread (some u) out = refl

with_usage-usage :
    (u : Option Json) (out : ParsedCodexEvents)
    → (with_usage u out).usage ≡ or_value (usage_or_none u) out.usage
with_usage-usage none out = refl
with_usage-usage (some u) out = refl

on_event-thread :
    (v : Json) (out : ParsedCodexEvents)
    → (on_event v out).thread_id ≡ or_value (thread_in v) out.thread_id
on_event-thread v out = elim (Bool-cases (has_type (str "thread.started") v)) [
  | inl started ↦ rw started (with_thread-thread (get_str (str "thread_id") v) out)
  | inr other ↦ rw other (elim (Bool-cases (has_type (str "turn.completed") v)) [
    | inl completed ↦ rw completed (with_usage-thread (get (str "usage") v) out)
    | inr another ↦ rw another refl
  ])
]

-- No event is of both types.
completed-started :
    (v : Json)
    → has_type (str "thread.started") v ≡ true
    → has_type (str "turn.completed") v ≡ false
unfolding str_eq
completed-started v h =
    let named = (str_eq_iff (unwrap_or (get_str (str "type") v) []) (str "thread.started")).0 h in
    rw named refl

with_thread-usage :
    (id : Option Str) (out : ParsedCodexEvents) → (with_thread id out).usage ≡ out.usage
with_thread-usage none out = refl
with_thread-usage (some id) out = refl

on_event-usage :
    (v : Json) (out : ParsedCodexEvents) → (on_event v out).usage ≡ or_value (usage_in v) out.usage
on_event-usage v out = elim (Bool-cases (has_type (str "thread.started") v)) [
  | inl started ↦
      rw started
        (rw (completed-started v started) (with_thread-usage (get_str (str "thread_id") v) out))
  | inr other ↦ rw other (elim (Bool-cases (has_type (str "turn.completed") v)) [
    | inl completed ↦ rw completed (with_usage-usage (get (str "usage") v) out)
    | inr another ↦ rw another refl
  ])
]

or_last-value : (text last : Option Str) → or_last text last ≡ or_value text last
or_last-value none last = refl
or_last-value (some text) last = refl

on_item-value : (v : Json) (last : Option Str) → on_item v last ≡ or_value (message_in v) last
on_item-value v last = elim (Bool-cases (has_type (str "item.completed") v)) [
  | inl completed ↦ rw completed (or_last-value (agent_text (get (str "item") v)) last)
  | inr other ↦ rw other refl
]

or_value-none : {A : Type 0} (x : Option A) → or_value x none ≡ x
or_value-none none = refl
or_value-none (some a) = refl

-- Of a stream of events the thread's id, the usage and the message are those of the last event that has
-- them, whatever lines stand between the events.
pub parse_codex_jsonl-last :
    (from_str : Str → Result Json Str) (stdout : Str)
    → ((parse_codex_jsonl from_str stdout).thread_id
        ≡ last_of thread_in (events from_str (lines stdout)))
      × ((parse_codex_jsonl from_str stdout).usage
          ≡ last_of usage_in (events from_str (lines stdout)))
      × (extract_last_agent_message from_str stdout
          ≡ last_of message_in (events from_str (lines stdout)))
unfolding parse_codex_jsonl extract_last_agent_message
parse_codex_jsonl-last from_str stdout = (
  walk-part from_str on_event thread_in (λ out. out.thread_id) on_event-thread (lines stdout)
        no_events
      ∙ or_value-none _,
  walk-part from_str on_event usage_in (λ out. out.usage) on_event-usage (lines stdout) no_events
      ∙ or_value-none _,
  walk-part from_str on_item message_in (λ last. last) on_item-value (lines stdout) none
      ∙ or_value-none _,
)
