-- ===== src/Frontends/Lua.antt =====
-- crates/inty/src/frontends/lua: the frontend for Lua.
pub mod Lexer
