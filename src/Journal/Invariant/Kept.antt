-- ===== src/Journal/Invariant/Kept.antt =====
-- Every call that changes `write_operations` keeps its invariant.
pub mod Updates
pub mod Inserts
pub mod Successors
