-- ===== src/Pool.antt =====
-- fumio-pool/src/pool: the single-threaded pool of futures.
pub mod Task
pub mod Round
pub mod Invariant
pub mod Notify
pub mod Polls
pub mod Rounds
pub mod Links
pub mod Drop
pub mod Global
pub mod Progress
pub mod Batch
pub mod Work
pub mod Spending
pub mod Turns
pub mod Ending
pub mod Refs
pub mod Exec
pub mod Thread
mod Examples
