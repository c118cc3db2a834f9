-- ===== src/Recovery.antt =====
-- Conflict recovery: source/shared/RCConflictRecovery.c.
pub mod Model
pub mod Complete
