-- ===== src/Object.antt =====
-- src/object: what holds the objects.
pub mod Access
pub mod Leases
pub mod Pins
pub mod Identity
pub mod Replicas
pub mod Catalog
pub mod Ledger
pub mod Commits
pub mod Removal
pub mod Eviction
pub mod Survival
pub mod Revocation
pub mod Sweeping
pub mod Watermark
mod Examples
