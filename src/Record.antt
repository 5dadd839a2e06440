-- ===== src/Record.antt =====
-- Package record: a Session's Record.
pub mod Entry
pub mod Writing
pub mod Repair
pub mod Cut
pub mod Window
