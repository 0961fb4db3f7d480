-- ===== src/Attribution.antt =====
-- imageshield/attribution: whose faces are in a photo.
pub mod Resolve
mod Examples
