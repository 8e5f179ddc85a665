-- ===== src/Manager.antt =====
-- The playlists that the daemon holds: the requests of
-- mafw-shared/mafw-playlist-daemon/playlist-manager-wrapper.c that make and destroy them, and the one of
-- playlist-wrapper.c that sets a name.
pub mod Requests
pub mod Trees
pub mod Invariant
pub mod Rename
pub mod Handled
pub mod Copies
mod Tests
