-- ===== src/Segment/Placement.antt =====
-- src/segment/placement.rs: which segments the replicas of an object are reserved on.
pub mod Defs
pub mod Loop
pub mod Rule
pub mod Sets
pub mod Spread
pub mod Accounts
pub mod Leases
pub mod Compare
pub mod Order
pub mod Ranking
mod Examples
pub mod Policy
