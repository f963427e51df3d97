-- ===== src/Object/Ledger.antt =====
-- The object catalog against a ledger of its versions.
pub mod Defs
pub mod Moves
pub mod Steps
pub mod Write
pub mod Publish
pub mod Collect
pub mod Rounds
pub mod Sweep
pub mod Revoke
pub mod Cycle
pub mod History
pub mod Counting
pub mod Totals
pub mod Ownership
mod Examples
