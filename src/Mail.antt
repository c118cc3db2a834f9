-- ===== src/Mail.antt =====
-- source/macOS-daemon/RCMailProxy.c: what the mail proxy sends and reads before it relays.
pub mod Sending
pub mod Smtp
pub mod Answers
pub mod Relay
pub mod Relayed
