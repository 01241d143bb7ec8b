-- ===== src/Invariants.antt =====
-- What holds of the database between any two transactions.
pub mod Jobs
pub mod Events
pub mod Keeps
pub mod Sound
pub mod Updates
pub mod RecoveredRows
pub mod Recovery
pub mod Claiming
pub mod Counters
pub mod Chunks
pub mod Uploads
