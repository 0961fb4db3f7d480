-- ===== src/Review.antt =====
-- imageshield/review: the decisions on hits, and any sequence of what workers, operators and subjects do
-- to them.
pub mod Store
pub mod Subject
pub mod Moves
pub mod Steps
mod Examples
