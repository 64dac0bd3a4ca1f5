-- ===== src/CodexStdio.antt =====
-- The crate `codex-stdio`, the MCP server that hands tasks to Codex.
pub mod Paths
pub mod Worktree
pub mod RunTask
pub mod Codex
pub mod Health
