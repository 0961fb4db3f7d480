-- ===== src/Calibration.antt =====
-- imageshield/calibration: from a provider's raw score to a band.
pub mod Bands
pub mod Validate
mod Examples
