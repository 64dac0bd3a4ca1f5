-- ===== src/LspCpp/Backend.antt =====
-- lsp-cpp/src/backend.rs: what the server asks of clangd, over any type of machine states. Beside the
-- trait it holds the calls of `Clangd` that the server makes directly, and the clock, whose reading is
-- a number of nanoseconds that belongs to the state.
use mcp_tools.Prelude.{ℕ, ◌≤◌, Bool, Option, List, Str}
use mcp_tools.Prelude.Action.{Action}
use mcp_tools.LspCpp.Error.{ShimError, IoError}

pub record Location : Type 0 where
  pub path : Str
  pub line : ℕ
  pub column : ℕ

pub record Symbol : Type 0 where
  pub name : Str
  pub kind : ℕ
  pub location : Location
  pub container : Option Str

pub record Hover : Type 0 where
  pub contents : Str

-- The time is in nanoseconds.
pub record BuildFullIndexReport : Type 0 where
  pub tus_opened : ℕ
  pub skipped_io_errors : ℕ
  pub wall : ℕ
  pub shards_on_disk_after : ℕ
  pub shards_size_bytes : ℕ
  pub cap_fired : Bool

pub record LspBackend (W : Type 0) : Type 0 where
  pub spawn : Action W ShimError (Unit {0})
  pub definition : Str → ℕ → ℕ → Action W ShimError (List Location)
  pub references : Str → ℕ → ℕ → Action W ShimError (List Location)
  pub hover : Str → ℕ → ℕ → Action W ShimError (Option Hover)
  pub workspace_symbol : Str → Action W ShimError (List Symbol)
  pub shutdown : Action W ShimError (Unit {0})
  pub build_full_index : ℕ → Action W ShimError BuildFullIndexReport
  pub is_alive : Action W IoError Bool
  pub last_exit_status : W → Option Str
  pub clangd_pid : W → Option ℕ
  pub now_ns : W → ℕ

module _ {W E A : Type 0} (now_ns : W → ℕ) where
  -- An action takes time, or none.
  abbrev pub IsForward : Action W E A → Type 0
  IsForward action = (w : W) → now_ns w ≤ now_ns (action w).1

-- The clock does not go back.
pub record IsMonotone {W : Type 0} (b : LspBackend W) : Type 0 where
  pub spawn : IsForward b.now_ns b.spawn
  pub definition :
      (file : Str) (line column : ℕ) → IsForward b.now_ns (b.definition file line column)
  pub references :
      (file : Str) (line column : ℕ) → IsForward b.now_ns (b.references file line column)
  pub hover : (file : Str) (line column : ℕ) → IsForward b.now_ns (b.hover file line column)
  pub workspace_symbol : (query : Str) → IsForward b.now_ns (b.workspace_symbol query)
  pub shutdown : IsForward b.now_ns b.shutdown
  pub build_full_index : (max_tus : ℕ) → IsForward b.now_ns (b.build_full_index max_tus)
  pub is_alive : IsForward b.now_ns b.is_alive
