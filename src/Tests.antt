-- ===== src/Tests.antt =====
-- Runs of the definitions on concrete inputs, and the theorems applied to such inputs.
pub mod CumulativeMd
pub mod Lease
pub mod Time
pub mod Shim
pub mod LspRust
pub mod Pool
pub mod Merge
pub mod Supervisor
pub mod Mcp
pub mod CodexStdio
pub mod Codex
pub mod Clangd
