-- ===== src/History.antt =====
-- The history service (history-service/): the archive of messages and the state of the channels.
pub mod Archive
pub mod Appending
pub mod Refresh
pub mod Refreshing
pub mod Channels
pub mod Exports
pub mod Grouping
mod Examples
mod Importing
