-- ===== src/Aplaylist.antt =====
-- mafw-shared/mafw-playlist-daemon/aplaylist.c and the type `Pls` of mpd-internal.h.
pub mod Types
pub mod Edit
pub mod Play
pub mod Valid
pub mod Draw
pub mod Navigate
pub mod Check
pub mod Insert
pub mod Remove
pub mod Move
pub mod Settings
pub mod History
pub mod Stdio
pub mod Save
pub mod Load
pub mod Scan
pub mod Atomic
pub mod Lines
pub mod Reload
pub mod Restore
pub mod LoadBounds
pub mod Tests
mod FileTests
