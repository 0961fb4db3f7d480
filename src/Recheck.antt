-- ===== src/Recheck.antt =====
-- imageshield/recheck: the weekly sweep that asks whether an infringing page is still online.
pub mod Policy
pub mod Ssrf
pub mod Probe
pub mod Pacer
pub mod Sweep
mod Examples
