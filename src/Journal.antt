-- ===== src/Journal.antt =====
-- The durable write journal: source/shared/RCWriteJournal.c and its header.
pub mod Model
pub mod Etag
pub mod Enqueue
pub mod Attempt
pub mod Resolve
pub mod Attention
pub mod Invariant
pub mod Calls
pub mod History
pub mod Due
pub mod Replay
