-- ===== src/Bundle.antt =====
-- crates/inty-bundle/src: the module graph of a bundle and its loader.
pub mod Graph
pub mod Loader
mod Tests
