-- ===== src/LspCpp/Mcp/Forward.antt =====
-- The tools take time, or none, where each call of clangd does.
use mcp_tools.Prelude.{ℕ, ◌≡◌, some, Bool-cases, Option-cases, is_empty, inl, inr, Str, str, arith}
use mcp_tools.Prelude.Result.{Result-cases}
use mcp_tools.Prelude.Action.{Action, ◌>>◌}
use mcp_tools.Prelude.Json.{Json, get_str, get_u64, unwrap_or}
use mcp_tools.LspCpp.Error.{ShimError}
use mcp_tools.LspCpp.Backend.{LspBackend, IsMonotone, IsForward}
use mcp_tools.LspCpp.Mcp.Tools.{
  PositionKind, definition, references, hover, tool_of, call_workspace_symbol, position_call,
  build_full_index_default_max_tus, call_position, call_build_full_index,
}

module _ {W : Type 0} (b : LspBackend W) (m : IsMonotone b) (secs_f64 : ℕ → Json)
    (args : Json) where
  -- Clangd is spawned, and then asked.
  spawned-IsForward :
      (call : Action W ShimError Json)
      → IsForward b.now_ns call
      → IsForward b.now_ns (b.spawn >> call)
  spawned-IsForward call forward w = elim (Result-cases (b.spawn w).0) [
    | inl (u, e) ↦ rw e (omega (arith, m.spawn w, forward (b.spawn w).1))
    | inr (failure, e) ↦ rw e (m.spawn w)
  ]

  workspace_symbol-IsForward : IsForward b.now_ns (call_workspace_symbol b secs_f64 args)
  unfolding call_workspace_symbol
  workspace_symbol-IsForward w = elim (Option-cases (get_str (str "query") args)) [
    | inl e ↦ rw e (omega arith)
    | inr (query, e) ↦ rw e (elim (Bool-cases (is_empty query)) [
      | inl none' ↦ rw none' (omega arith)
      | inr some' ↦
          rw some' (spawned-IsForward _ (λ v. ground (arith, m.workspace_symbol query v)) w)
    ])
  ]

  asked-IsForward :
      (kind : PositionKind) (file : Str) (line column : ℕ)
      → IsForward b.now_ns (position_call b secs_f64 kind file line column)
  asked-IsForward definition file line column w = ground (arith, m.definition file line column w)
  asked-IsForward references file line column w = ground (arith, m.references file line column w)
  asked-IsForward hover file line column w = ground (arith, m.hover file line column w)

  position-IsForward :
      (kind : PositionKind) → IsForward b.now_ns (call_position b secs_f64 kind args)
  unfolding call_position
  position-IsForward kind w = elim (Option-cases (get_str (str "file") args)) [
    | inl e ↦ rw e (omega arith)
    | inr (file, e₁) ↦ rw e₁ (elim (Option-cases (get_u64 (str "line") args)) [
      | inl e ↦ rw e (omega arith)
      | inr (line, e₂) ↦ rw e₂ (elim (Option-cases (get_u64 (str "column") args)) [
        | inl e ↦ rw e (omega arith)
        | inr (column, e₃) ↦ rw e₃ (spawned-IsForward _ (asked-IsForward kind file _ _) w)
      ])
    ])
  ]

  full_index-IsForward : IsForward b.now_ns (call_build_full_index b secs_f64 args)
  unfolding call_build_full_index
  full_index-IsForward w = ground (
    arith,
    m.build_full_index (unwrap_or (get_u64 (str "max_tus") args) build_full_index_default_max_tus)
        w,
  )

  pub tool_of-IsForward :
      (name : Str) (call : Action W ShimError Json)
      → tool_of b secs_f64 name args ≡ some call
      → IsForward b.now_ns call
  unfolding tool_of
  tool_of-IsForward name call e w = ground (
    arith,
    workspace_symbol-IsForward w,
    position-IsForward definition w,
    position-IsForward references w,
    position-IsForward hover w,
    full_index-IsForward w,
  )
