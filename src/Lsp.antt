-- ===== src/Lsp.antt =====
-- crates/inty-lsp: the language server.
pub mod Convert
