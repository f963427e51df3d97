-- ===== src/Segment/Invariant.antt =====
-- src/segment/pool: what holds of the catalog between the operations.
pub mod Defs
pub mod Updates
pub mod Detach
pub mod Mount
pub mod Operations
pub mod Removal
pub mod Attach
pub mod Reserve
pub mod Specs
