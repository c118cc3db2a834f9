-- ===== src/Writer.antt =====
-- The conditional DAV writer: source/shared/RCDAVWriter.c.
pub mod Attempt
pub mod Probes
pub mod Sends
pub mod Verdicts
