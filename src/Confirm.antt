-- ===== src/Confirm.antt =====
-- imageshield/confirm: the triage of a confirmed hit, the writes of its store, and its worker.
pub mod Triage
pub mod Store
pub mod Worker
mod Examples
