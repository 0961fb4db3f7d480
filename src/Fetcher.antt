-- ===== src/Fetcher.antt =====
-- imageshield/fetcher: which pages the fetcher may read.
pub mod Robots
pub mod Cache
mod Examples
