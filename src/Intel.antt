-- ===== src/Intel.antt =====
-- imageshield/intel: changes of the quiz's weights.
pub mod Vocabulary
pub mod Cells
mod Examples
