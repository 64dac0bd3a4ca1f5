-- ===== src/LspRust.antt =====
-- lsp-rust/src: the shim in front of one rust-analyzer process.
pub mod Error
pub mod Client
pub mod Answers
pub mod Session
pub mod Requests
pub mod Shutdown
pub mod Retries
pub mod Indexing
pub mod Waits
pub mod Mcp
pub mod Serve
pub mod Replies
