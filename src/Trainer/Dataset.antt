-- ===== src/Trainer/Dataset.antt =====
-- lora-training/build_dataset.py: the turns of a channel, their contexts, and which turns become
-- examples. Regular expressions are arguments; times are numbers of any unit.
pub mod Turns
pub mod Merging
pub mod Targets
pub mod Contexts
pub mod Counters
pub mod Timelines
mod Examples
