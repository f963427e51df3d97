-- ===== src/Segment.antt =====
-- src/segment: the pool of mounted memory segments.
pub mod Types
pub mod Transport
pub mod Allocator
pub mod Entry
pub mod Catalog
pub mod Pool
pub mod Invariant
pub mod Stats
pub mod Placement
pub mod Fencing
pub mod Quantum
pub mod Batch
pub mod Examples
