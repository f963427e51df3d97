-- ===== src/Rpc.antt =====
-- crates/coro-rpc/src/protocol.rs: the wire protocol.
pub mod Words
pub mod Headers
pub mod HeaderLaws
pub mod Frame
mod Examples
