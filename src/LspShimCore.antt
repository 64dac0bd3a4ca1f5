-- ===== src/LspShimCore.antt =====
-- The crate `lsp-shim-core`, the wire format that both language-server shims share.
pub mod Framing
