-- ===== src/Frontends.antt =====
-- crates/inty/src/frontends: the languages that are checked.
pub mod Lua
