-- ===== src/Arbiter/Scheduler.antt =====
-- arbiter/scheduler.py: admission. `by_name` and `reclaimers` have the same keys and every
-- reclaimer carries its job, so one dictionary stands for both.
pub mod State
pub mod Shrinks
pub mod Acquire
pub mod Visits
pub mod Exclusive
pub mod Exits
pub mod Seniors
pub mod Reap
pub mod Reaping
pub mod Keeping
pub mod Consistency
pub mod Settling
pub mod Granting
pub mod Takeover
