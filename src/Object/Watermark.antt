-- ===== src/Object/Watermark.antt =====
-- src/object/eviction.rs: the watermark controller of the memory eviction.
pub mod Defs
pub mod Laws
mod Examples
