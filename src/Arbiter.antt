-- ===== src/Arbiter.antt =====
-- The GPU arbiter (arbiter/): its job table, how the card is taken back, and the scheduler.
pub mod Config
pub mod Reclaimers
pub mod Scheduler
mod Examples
