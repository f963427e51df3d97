-- ===== src/Client.antt =====
-- src/client: sessions of clients, their deadlines and the cleanup of those that end.
pub mod Types
pub mod Registry
pub mod Scan
pub mod Invariant
pub mod Claims
pub mod World
pub mod Calls
pub mod Progress
mod Examples
