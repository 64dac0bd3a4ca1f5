-- ===== src/CodexStdio/Codex/Events.antt =====
-- codex-stdio/src/codex.rs: the events that `codex exec --json` prints, one JSON object in a line.
use mcp_tools.Prelude.{
  ◌+◌, ◌%◌, ◌^◌, Bool, Option, none, some, List, [], ◌∷◌, if◌then◌else◌, Str, str, str_eq, trim,
  starts_with,
}
use mcp_tools.Prelude.Json.{Json, get, get_str, get_u64, unwrap_or}
use mcp_tools.Prelude.Result.{Result, ok, err}
use mcp_tools.CodexStdio.Paths.{lines}
use mcp_tools.CodexStdio.RunTask.{Usage}

pub record ParsedCodexEvents : Type 0 where
  pub thread_id : Option Str
  pub usage : Option Usage

abbrev pub no_events : ParsedCodexEvents
no_events = record { thread_id = none; usage = none }

-- A sum of two `u64` wraps around.
abbrev pub usage_of : Json → Usage
usage_of u =
    let input = unwrap_or (get_u64 (str "input_tokens") u) 0 in
    let output = unwrap_or (get_u64 (str "output_tokens") u) 0 in
    record {
      prompt_tokens = input;
      completion_tokens = output;
      total_tokens = (input + output) % 2 ^ 64;
      cached_prompt_tokens = get_u64 (str "cached_input_tokens") u;
      reasoning_output_tokens = get_u64 (str "reasoning_output_tokens") u;
    }

abbrev pub has_type : Str → Json → Bool
has_type name v = str_eq (unwrap_or (get_str (str "type") v) []) name

abbrev pub with_thread : Option Str → ParsedCodexEvents → ParsedCodexEvents
with_thread none out = out
with_thread (some id) out = record out { thread_id = some id }

abbrev pub with_usage : Option Json → ParsedCodexEvents → ParsedCodexEvents
with_usage none out = out
with_usage (some u) out = record out { usage = some (usage_of u) }

abbrev pub on_event : Json → ParsedCodexEvents → ParsedCodexEvents
on_event v out =
    if has_type (str "thread.started") v
    then with_thread (get_str (str "thread_id") v) out
    else if has_type (str "turn.completed") v
    then with_usage (get (str "usage") v) out
    else out

abbrev pub agent_text : Option Json → Option Str
agent_text none = none
agent_text (some item) =
    if has_type (str "agent_message") item then get_str (str "text") item else none

abbrev pub or_last : Option Str → Option Str → Option Str
or_last none last = last
or_last (some text) last = some text

abbrev pub on_item : Json → Option Str → Option Str
on_item v last =
    if has_type (str "item.completed") v
    then or_last (agent_text (get (str "item") v)) last
    else last

module _ (from_str : Str → Result Json Str) where
  abbrev parsed_or_skipped : Result Json Str → Option Json
  parsed_or_skipped (ok v) = some v
  parsed_or_skipped (err e) = none

  -- The event in a line, if it holds one.
  unfoldable pub event_in : Str → Option Json
  event_in line =
      let trimmed = trim line in
      if starts_with (str "{") trimmed then parsed_or_skipped (from_str trimmed) else none

  abbrev pub skip_or : {A : Type 0} → (Json → A → A) → Option Json → A → A
  skip_or on none out = out
  skip_or on (some v) out = on v out

  unfoldable pub walk : {A : Type 0} → (Json → A → A) → List Str → A → A
  unfolding event_in
  walk on [] out = out
  walk on (line ∷ rest) out = walk on rest (skip_or on (event_in line) out)

  unfoldable pub parse_codex_jsonl : Str → ParsedCodexEvents
  unfolding walk lines
  parse_codex_jsonl stdout = walk on_event (lines stdout) no_events

  unfoldable pub extract_last_agent_message : Str → Option Str
  unfolding walk lines
  extract_last_agent_message stdout = walk on_item (lines stdout) none
