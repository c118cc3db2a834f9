-- ===== src/Policy.antt =====
-- Field rules and record comparison: source/shared/RCSyncPolicy.c.
pub mod Lists
pub mod Fields
pub mod Records
pub mod Writable
pub mod Symmetry
pub mod Plan
pub mod Planned
