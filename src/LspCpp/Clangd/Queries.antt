-- ===== src/LspCpp/Clangd/Queries.antt =====
-- lsp-cpp/src/clangd.rs: what the server asks of clangd, which is started first where it is not there.
use mcp_tools.Prelude.{ℕ, Option, List, Str, str}
use mcp_tools.Prelude.Json.{Json}
use mcp_tools.Prelude.Action.{Action, ◌>>=◌, ◌>>◌, pure}
use mcp_tools.LspCpp.Error.{ShimError}
use mcp_tools.LspCpp.Backend.{Location, Symbol, Hover}
use mcp_tools.LspCpp.Clangd.{Os, Machine}
use mcp_tools.LspCpp.Clangd.Request.{request_spawned}
use mcp_tools.LspCpp.Clangd.Spawn.{ensure_spawned, query_params}
use mcp_tools.LspCpp.Clangd.Answers.{
  parse_locations, parse_hover, parse_symbols, position_params, references_params,
}

module _ {W : Type 0} (os : Os W) (show : Json → Str) (process_id : ℕ) where
  unfoldable pub request : Str → Json → Action (Machine W) ShimError Json
  unfolding ensure_spawned request_spawned
  request method params = ensure_spawned os show process_id >> request_spawned os show method params

  unfoldable pub definition : Str → ℕ → ℕ → Action (Machine W) ShimError (List Location)
  unfolding request parse_locations position_params
  definition path line column = do
    result ← request (str "textDocument/definition") (position_params path line column)
    pure (parse_locations result)

  unfoldable pub references : Str → ℕ → ℕ → Action (Machine W) ShimError (List Location)
  unfolding request parse_locations references_params
  references path line column = do
    result ← request (str "textDocument/references") (references_params path line column)
    pure (parse_locations result)

  unfoldable pub hover : Str → ℕ → ℕ → Action (Machine W) ShimError (Option Hover)
  unfolding request parse_hover position_params
  hover path line column = do
    result ← request (str "textDocument/hover") (position_params path line column)
    pure (parse_hover result)

  unfoldable pub workspace_symbol : Str → Action (Machine W) ShimError (List Symbol)
  unfolding request parse_symbols
  workspace_symbol query = do
    result ← request (str "workspace/symbol") (query_params query)
    pure (parse_symbols result)
