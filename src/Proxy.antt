-- ===== src/Proxy.antt =====
-- The proxy (proxy/): request accounting, the client of the arbiter, and the idle evictor.
pub mod Client
pub mod State
pub mod Requests
pub mod Counting
pub mod Accounting
pub mod Leaks
pub mod Idle
pub mod Evictor
mod Examples
