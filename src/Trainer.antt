-- ===== src/Trainer.antt =====
-- The trainer (lora-training/): checkpoints that survive a kill, and the supervisor.
pub mod Checkpoints
pub mod Newest
pub mod Pruning
pub mod Ranks
pub mod Sparing
pub mod Dataset
pub mod Supervisor
mod Examples
