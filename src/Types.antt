-- ===== src/Types.antt =====
-- crates/inty/src/types: the types and the substitution of the inference engine.
pub mod Ty
pub mod Subst
pub mod Tidy
pub mod Union
pub mod Widen
pub mod Free
pub mod Row
pub mod Named
mod Tests
