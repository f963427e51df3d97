-- ===== src/Segment/Pool.antt =====
-- src/segment/pool.rs and config.rs: the pool, its two epochs, and the admission of specifications.
pub mod Defs
pub mod History
pub mod Reserving
pub mod Calls
pub mod Reachable
