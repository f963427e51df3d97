-- ===== src/Rpc/Frame.antt =====
-- The frames and their streaming codecs: crates/coro-rpc/src/protocol.rs.
pub mod Defs
pub mod Streams
pub mod Accepts
pub mod Formats
