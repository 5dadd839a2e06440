-- ===== src/Store.antt =====
-- store: where Records and Liveness rows are kept.
pub mod Id
pub mod Batch
pub mod File
pub mod Memory
pub mod Writer
