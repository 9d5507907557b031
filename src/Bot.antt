-- ===== src/Bot.antt =====
-- The Discord bot (discord-bot/): rate limits, threads, lore sessions and the context window.
pub mod RateLimiter
pub mod Window
pub mod Quota
pub mod Session
pub mod Compaction
pub mod SessionStore
pub mod Offers
pub mod Agent
pub mod Conversation
pub mod Recent
pub mod Formatters
pub mod Splitting
pub mod Registry
mod Examples
