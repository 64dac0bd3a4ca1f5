-- ===== src/LspCpp/Mcp.antt =====
-- lsp-cpp/src/mcp.rs: the server that speaks JSON-RPC in lines with its client, and asks clangd.
pub mod Reply
pub mod Outcome
pub mod Tools
pub mod Status
pub mod Calls
pub mod Serve
pub mod Replies
pub mod Guards
pub mod Restarts
pub mod Forward
pub mod Followed
pub mod Recovery
