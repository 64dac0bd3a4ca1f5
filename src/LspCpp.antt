-- ===== src/LspCpp.antt =====
-- The crate `lsp-cpp`, the MCP shim around clangd.
pub mod Queue
pub mod Supervisor
pub mod Error
pub mod Backend
pub mod Mcp
pub mod Clangd
