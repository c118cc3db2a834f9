-- ===== src/Http.antt =====
-- The DAV transport: source/shared/RCHTTPClient.c.
pub mod Model
pub mod Receive
pub mod Request
pub mod Limits
pub mod Sent
