-- ===== src/Protocol.antt =====
-- The wire protocol: crates/core/src/message_channel.rs and protocol/buffer.rs.
pub mod Bytes
pub mod Channel
pub mod Buffer
pub mod Messages
