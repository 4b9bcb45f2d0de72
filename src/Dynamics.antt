-- ===== src/Dynamics.antt =====
-- crates/inty/src/dynamics: the small-step interpreter that the checker is tested against.
pub mod Store
pub mod Variables
mod Tests
