-- ===== src/CodexStdio/RunTask.antt =====
-- codex-stdio/src/run_task.rs: one task, from its arguments to its result. The client is an interface:
-- it works on the machine, since Codex edits the worktree and may commit.
pub mod Fences
pub mod Reduced
pub mod Headers
pub mod NoParent
pub mod Guarded
use mcp_tools.Prelude.{
  ℕ, Bool, true, false, not, Option, none, some, List, [], ◌∷◌, ◌++◌, if◌then◌else◌, is_empty, Str,
  str, trim,
}
use mcp_tools.Prelude.Json.{Json, get_str, get_u64, unwrap_or}
use mcp_tools.Prelude.Result.{Result, ok, err, map_err, ensure, ok_or}
use mcp_tools.Prelude.Action.{Action, ◌>>=◌, ◌>>◌, reads, pure}
use mcp_tools.CodexStdio.Worktree.{
  Host, TaskError, missing_argument, empty_packet, chat_failed, no_choices, unavailable,
  validate_worktree_path, validate_diff_paths_under_worktree, git_rev_parse_head, git_diff_from,
  decide_commit_outcome, or_text,
}

abbrev default_max_tokens : ℕ
default_max_tokens = 131_072

abbrev pub default_model : Str
default_model = str "gpt-5.3-codex"

pub record Args : Type 0 where
  pub task_packet : Str
  pub worktree_path : Str
  pub model : Str
  pub max_tokens : ℕ

pub record ChatMessage : Type 0 where
  pub role : Str
  pub content : Str

pub record ChatRequest : Type 0 where
  pub model : Str
  pub messages : List ChatMessage
  pub max_tokens : Option ℕ

pub record Choice : Type 0 where
  pub message : ChatMessage
  pub finish_reason : Option Str

pub record Usage : Type 0 where
  pub prompt_tokens : ℕ
  pub completion_tokens : ℕ
  pub total_tokens : ℕ
  pub cached_prompt_tokens : Option ℕ
  pub reasoning_output_tokens : Option ℕ

pub record ChatResponse : Type 0 where
  pub id : Str
  pub model : Str
  pub choices : List Choice
  pub usage : Option Usage

-- What the result's JSON holds.
pub record Outcome : Type 0 where
  pub diff : Str
  pub commit_sha : Option Str
  pub committed_by : Str
  pub log : Str
  pub usage : Usage

abbrev no_usage : Usage
no_usage = record {
  prompt_tokens = 0;
  completion_tokens = 0;
  total_tokens = 0;
  cached_prompt_tokens = none;
  reasoning_output_tokens = none;
}

module _ {W : Type 0} (host : Host W) where
  unfoldable pub parse_args : Json → Action W TaskError Args
  unfolding validate_worktree_path
  parse_args args = do
    task_packet ←
        reads (λ (w : W).
          ok_or (get_str (str "task_packet") args) (missing_argument (str "task_packet")))
    reads (λ (w : W). ensure (not (is_empty task_packet)) empty_packet)
    raw ← reads (λ (w : W).
        ok_or (get_str (str "worktree_path") args) (missing_argument (str "worktree_path")))
    worktree_path ← reads (λ (w : W). validate_worktree_path host w raw)
    pure (record {
      task_packet = task_packet;
      worktree_path = worktree_path;
      model =
          or_text (get_str (str "model") args)
            (or_text (host.env (str "CODEX_STDIO_MODEL")) default_model);
      max_tokens = unwrap_or (get_u64 (str "max_tokens") args) default_max_tokens;
    })

  abbrev system_message : Str → Str
  system_message worktree =
      str "You are a Codex worker dispatched by Claude Code's routing skill. Your worktree is `"
      ++ worktree
      ++ str
          "`. Produce a unified diff that applies cleanly to that worktree, OR an empty diff with a one-line rationale if the task should be deferred (Outcome B). Do not edit files outside the worktree."

  abbrev pub request_of : Args → ChatRequest
  request_of args = record {
    model = args.model;
    messages =
        record { role = str "system"; content = system_message args.worktree_path }
        ∷ record { role = str "user"; content = args.task_packet }
        ∷ [];
    max_tokens = some args.max_tokens;
  }

  abbrev pub ok_of : {A : Type 0} → Result A TaskError → Option A
  ok_of (ok a) = some a
  ok_of (err e) = none

  -- The diff that stands on disk, unless it is blank or there is none: then the model's text.
  abbrev pub or_model_text : Option Str → Str → Str
  or_model_text none model_text = model_text
  or_model_text (some real) model_text = if is_empty (trim real) then model_text else real

  abbrev pub real_diff : Option Str → Str → W → Option Str
  real_diff none worktree w = none
  real_diff (some sha) worktree w = ok_of (git_diff_from host w worktree sha)

  abbrev pub first_choice : List Choice → Option Choice
  first_choice [] = none
  first_choice (c ∷ rest) = some c

  abbrev usage_of : Option Usage → Usage
  usage_of none = no_usage
  usage_of (some u) = u

  abbrev outcome_of : ChatResponse → Choice → Str → Option Str × Str → Outcome
  outcome_of resp choice diff (commit_sha, committed_by) = record {
    diff = diff;
    commit_sha = commit_sha;
    committed_by = committed_by;
    log =
        str "model="
        ++ resp.model
        ++ str " finish_reason="
        ++ or_text choice.finish_reason (str "unknown")
        ++ str " response_id="
        ++ resp.id;
    usage = usage_of resp.usage;
  }

  -- What follows the answer, with the head of the worktree from before.
  unfoldable pub conclude : Args → Option Str → ChatResponse → Action W TaskError Outcome
  unfolding validate_diff_paths_under_worktree decide_commit_outcome git_diff_from
  conclude args pre_sha resp = do
    choice ← reads (λ (w : W). ok_or (first_choice resp.choices) no_choices)
    diff ← reads (λ (w : W).
        ok (or_model_text (real_diff pre_sha args.worktree_path w) choice.message.content))
    reads (λ (w : W). validate_diff_paths_under_worktree host w diff args.worktree_path)
    commit ← reads (λ (w : W). decide_commit_outcome host w pre_sha args.worktree_path)
    pure (outcome_of resp choice diff commit)

  -- `client` is its `chat`.
  module _ (client : ChatRequest → Action W Str ChatResponse) where
    abbrev chat : ChatRequest → Action W TaskError ChatResponse
    chat req w = let (result, w₁) = client req w in (map_err chat_failed result, w₁)

    unfoldable pub dispatch : Args → Action W TaskError Outcome
    unfolding conclude git_rev_parse_head
    dispatch args = do
      pre_sha ← reads (λ (w : W). ok (ok_of (git_rev_parse_head host w args.worktree_path)))
      resp ← chat (request_of args)
      conclude args pre_sha resp

  -- `for_worktree` gives the client, or says why there is none.
  unfoldable pub run :
      (Str → W → Result (ChatRequest → Action W Str ChatResponse) Str)
      → Json
      → Action W TaskError Outcome
  unfolding parse_args dispatch
  run for_worktree args = do
    parsed ← parse_args args
    client ← reads (λ (w : W). map_err unavailable (for_worktree parsed.worktree_path w))
    dispatch client parsed
