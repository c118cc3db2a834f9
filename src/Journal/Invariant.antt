-- ===== src/Journal/Invariant.antt =====
-- What holds of the tables of the journal between two calls.
mod Rows
pub mod Kept
pub use Rows.*
