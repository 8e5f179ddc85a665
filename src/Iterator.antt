-- ===== src/Iterator.antt =====
-- mafw-gst-renderer/libmafw-gst-renderer/mafw-playlist-iterator.c.
pub mod Types
pub mod Operations
pub mod Handlers
pub mod Contents
pub mod Moved
pub mod Tests
