-- ===== src/LspRust/Answers.antt =====
-- lsp-rust/src/lsp.rs: how an answer of rust-analyzer is read. A message is written out again for
-- `parse_response`, with serde as a parameter.
use mcp_tools.Prelude.{ℕ, Option, none, some, List, ◌++◌, Str, str}
use mcp_tools.Prelude.Json.{Json, null, get}
use mcp_tools.Prelude.Result.{Result, ok, err, map_err, ◌>>=◌}
use mcp_tools.LspShimCore.Framing.{IoError, RpcOutcome, RawResponse, parse_response}
use mcp_tools.LspRust.Error.{LspShimError, lsp, protocol, json}

-- serde_json's writer and its reader of responses, and the texts of a value and of a framing error.
pub record Serde : Type 0 where
  pub to_vec : Json → Result (List ℕ) Str
  pub from_slice : List ℕ → Result (RawResponse Json) Str
  pub show : Json → Str
  pub describe : IoError → Str

abbrev reply_of : RpcOutcome Json → Result Json LspShimError
reply_of (RpcOutcome.result value) = ok value
reply_of (RpcOutcome.error code message details) = err (lsp code message none)

module _ (serde : Serde) where
  unfoldable pub answer_of : Str → Json → Result Json LspShimError
  unfolding parse_response
  answer_of method value = do
    body ← map_err json (serde.to_vec value)
    outcome ←
        map_err (λ e. protocol (str "parse " ++ method ++ str ": " ++ serde.describe e))
          (parse_response null serde.from_slice body)
    reply_of outcome

  abbrev unless_error : Option Json → Result Json LspShimError
  unless_error none = ok null
  unless_error (some e) = err (protocol (str "rust-analyzer initialize error: " ++ serde.show e))

  -- The answer to `initialize`, whose result is not looked at.
  unfoldable pub initialize_answer : Json → Result Json LspShimError
  initialize_answer value = unless_error (get (str "error") value)
