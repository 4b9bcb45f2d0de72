-- ===== src/Infer.antt =====
-- crates/inty/src/infer: the inference engine's data structures.
pub mod VarTable
pub mod Env
pub mod Zonk
