-- ===== src/Client/Invariant.antt =====
-- What holds of a client registry between two operations.
pub mod Defs
pub mod Frame
pub mod Entry
pub mod Operations
pub mod Scan
pub use Defs.{Dated, Tracked, EntryInv, Inv}
