-- ===== src/Search.antt =====
-- imageshield/search: how a run is executed and how often a seed is scanned.
pub mod Cadence
pub mod Runner
pub mod Store
mod Examples
