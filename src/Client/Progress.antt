-- ===== src/Client/Progress.antt =====
-- A maintenance scan ends within its budget, and with budget enough leaves nothing overdue.
pub mod Heap
pub mod Rounds
pub mod Overdue
pub use Heap.{IsSorted, AllLater, due_count}
