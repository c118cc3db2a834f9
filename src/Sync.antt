-- ===== src/Sync.antt =====
-- Staged downloads and durable sync tokens: source/shared/RCDAVStaging.c and RCDAVSyncState.c.
pub mod Staging
pub mod Staged
pub mod Tokens
pub mod Keys
pub mod Committed
