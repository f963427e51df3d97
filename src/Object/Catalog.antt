-- ===== src/Object/Catalog.antt =====
-- src/object/catalog.rs and catalog/: the slots of the objects, their write transactions, and what the
-- collector does to them.
pub mod Defs
pub mod Counters
pub mod Write
pub mod Publish
pub mod Collect
pub mod Queues
pub mod Revoke
pub mod Sweep
pub mod Scoped
pub mod Cycle
pub mod Reads
