-- ===== src/Go.antt =====
-- crates/inty-go: the backend that emits Go.
pub mod Kinds
