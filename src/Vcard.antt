-- ===== src/Vcard.antt =====
-- vCards: source/shared/RCVCard.c, over libvc as a parameter.
pub mod Text
pub mod Document
pub mod Picture
pub mod Escapes
pub mod Projected
pub mod Streams
pub mod Progress
