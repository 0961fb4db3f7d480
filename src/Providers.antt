-- ===== src/Providers.antt =====
-- imageshield/providers: the dispatch guards in front of every third-party call.
pub mod Breaker
pub mod Budget
pub mod Models
pub mod Store
pub mod Gate
pub mod Retry
mod Examples
