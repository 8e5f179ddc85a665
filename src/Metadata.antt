-- ===== src/Metadata.antt =====
-- mafw/libmafw/mafw-metadata-serializer.c: metadata as a stream of bytes.
pub mod Types
pub mod Freeze
pub mod Thaw
pub mod RoundTrip
pub mod Tables
pub mod Total
mod Tests
