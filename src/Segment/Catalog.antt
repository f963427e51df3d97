-- ===== src/Segment/Catalog.antt =====
-- src/segment/pool/catalog.rs: the catalog under the pool's write lock. The entries are shared by
-- reference counts, so they stand in a store by the number of the attachment, and the catalog and the
-- handles hold that number. The iteration order of a `HashMap` is the order of the table.
pub mod Defs
pub mod Attach
pub mod Remove
