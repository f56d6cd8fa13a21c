-- ===== src/Remote.antt =====
-- The remote process: crates/remote/src/main.rs and crates/remote/src/ipc.rs.
pub mod Server
pub mod Lines
pub mod Ipc
