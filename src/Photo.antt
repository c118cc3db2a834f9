-- ===== src/Photo.antt =====
-- Contact photos: source/shared/RCPhotoCodec.c.
pub mod Codec
pub mod Alphabet
pub mod RoundTrip
pub mod Limits
