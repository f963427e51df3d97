-- ===== src/Client/Claims.antt =====
-- How many claims of a session are in the hands of workers, and how the operations change that.
pub mod Count
pub mod Operations
pub mod Scan
pub use Count.{count, one, running_in, handed}
