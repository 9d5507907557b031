-- ===== src/Bot/Agent.antt =====
-- The /lore agent (discord-bot/lore/agent.py, research.py, and compact_tool_rounds of
-- compaction.py).
pub mod Messages
pub mod Research
pub mod Shown
pub mod Metrics
pub mod Condensing
pub mod Rounds
pub mod Keeping
pub mod Compacted
pub mod Once
pub mod Stops
pub mod Pairing
pub mod Sound
pub mod Shared
pub mod Ends
pub mod Run
pub mod Turn
pub mod Upkeep
pub mod Growth
pub mod Blocks
pub mod Threads
pub mod Opening
mod Examples
