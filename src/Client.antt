-- ===== src/Client.antt =====
-- The client: crates/client/src.
pub mod Factory
pub mod Adapter
