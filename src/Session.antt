-- ===== src/Session.antt =====
-- gotato: the live Session.
pub mod Types
pub mod Control
pub mod Delivery
pub mod History
pub mod Subscription
pub mod ToolBatch
