-- ===== src/Client/World.antt =====
-- A registry together with the cleanup claims that workers hold, and any history of calls.
pub mod Defs
pub mod Reachable
pub mod Fencing
pub use Defs.{World, Command, step, run, WorldInv}
