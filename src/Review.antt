-- ===== src/Review.antt =====
-- app/modules/review: review runs and decisions on corrections.
pub mod Runs
pub mod Writes
pub mod Decisions
pub mod Bulk
pub mod Atomic
pub mod Archive
pub mod Effect
pub mod Invariant
pub mod Frozen
