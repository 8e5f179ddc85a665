-- ===== src/Lib.antt =====
-- MAFW (Multimedia Application Framework): its playlists, and how they are played.
--
-- The program is a set of C libraries and daemons. Applications edit playlists that a daemon holds
-- (mafw-shared/mafw-playlist-daemon); a renderer (mafw-gst-renderer) walks over a playlist with an
-- iterator and plays its clips.
--
-- Aplaylist: mafw-shared/mafw-playlist-daemon/aplaylist.c, with the record `Pls` of mpd-internal.h.
--   Types holds the record, `i_am_dirty` and `swap_elements`; Edit the operations that change a
--   playlist; Play those that read it and choose the next clip; Check is `pls_check`. Each function has
--   the name of the C function, takes the playlist and gives the new one beside its result. Valid,
--   Draw, Navigate, Insert, Remove, Move, Settings and History hold the proofs, Tests the runs.
--   Save is `pls_save` (with `save_me` of playlist-manager-wrapper.c) over a file system whose calls
--   may fail, Load is `pls_load`, and Stdio what they use of stdio. Scan, Lines, Atomic, Reload,
--   Restore and LoadBounds hold their proofs, FileTests the runs.
--
-- Iterator: mafw-gst-renderer/libmafw-gst-renderer/mafw-playlist-iterator.c. Types holds the iterator
--   and the record `PlaylistOps` of the calls that it makes to a playlist, Operations one function
--   per function of the file, Handlers the two that the playlist's signals call, Contents what the
--   handler of changed contents does, Moved the iterator over aplaylist.c when an item is moved, Tests
--   the runs.
--
-- Renderer: mafw-gst-renderer.c and mafw-gst-renderer-state*.c in the same directory. Types holds the
--   record of mafw-gst-renderer.h and `Host`, the answers of all that the renderer calls; Media the
--   helpers of mafw-gst-renderer.c; Playback and Seek those of mafw-gst-renderer-state.c (`do_play` for
--   mafw_gst_renderer_state_do_play, and so on) with mafw_gst_renderer_worker_set_position; States the
--   handlers of the four classes, one function for each method and one clause for each class; Policy
--   the calls of mafw-gst-renderer.c and `_run_error_policy`; Machine one function for all calls;
--   Assign the assignment of a playlist, WorkerErrors the table of errors of
--   `mafw_gst_renderer_manage_error`.
--   Settled, Playing, Clients, Seeks, Notified, Errors and Invariant hold the invariant; Interrupt,
--   Trying, Failing, Stops, Timers and Assigned what sequences of calls lead to; Tests the theorems at one renderer.
--   The iterator's `PlaylistOps` is what connects the three parts: over D-Bus, the daemon answers with
--   the functions of aplaylist.c.
--
-- Filter: mafw/libmafw/mafw-filter.c, the filters that a client sends to a source. Types holds the
--   filter's tree, Quote `mafw_filter_quote` and `mafw_filter_unquote`, Parse the recursive descent of
--   `parse_sexp`, Print the printer and `mafw_filter_copy`; each gives an `Outcome`. Quoting, Bounds,
--   Simple, RoundTrip, Total and Copy hold the proofs, Tests the runs. The parser runs on one unit of
--   fuel for each call of `parse_sexp` and each round of its loop; twice the length of the text is more
--   than it takes.
--
-- Metadata: mafw/libmafw/mafw-metadata-serializer.c, the stream in which metadata travel between the
--   processes. Types holds the values and the hash table, in the order in which GLib walks over it,
--   and `Platform`, what GLib and the machine fix: the numbers of the types and the size of a `glong`.
--   Numbers are stored with the lowest byte first. Freeze and Thaw have one function per function of
--   the file, on the bytes that are appended and on those that are left. RoundTrip, Tables and Total
--   hold the proofs, Tests the runs. The loop over the keys runs on one unit of fuel for each byte.
--
-- Manager: mafw-shared/mafw-playlist-daemon/playlist-manager-wrapper.c, the requests of `request` that
--   create, destroy and copy a playlist, and of playlist-wrapper.c the one that sets its name. Requests
--   holds the two trees and one function per request, in the steps of its branches, and writes down
--   which file it removes and which signal it sends; the failure of unlink, which is only logged, is
--   left out. Trees has the lookups, Invariant, Rename, Handled and Copies the proofs, Tests the runs.
--
-- Conventions. A C array is a function of the index, of which the entries below `len` count; `alloc`
-- is the number of allocated ones. `guint` arithmetic wraps at 2^32 where the source can reach the
-- end of the range; a playlist is valid only below 2^31 entries, where `gint` and `guint` agree. The
-- random numbers of GLib are an argument, with the documented range as a named hypothesis; so is the
-- id of the timer that an edit starts. That the old timer is still known to GLib when it is removed
-- (an assertion of `i_am_dirty`) is taken for granted. Memory never runs out. Strings are lists of
-- bytes; no null pointer stands among the object ids. The loop of `maybe_realloc` runs on 32 units of
-- fuel, enough for each size that it can reach; `none` stands for a call that does not return, and
-- `bad_access` for a read or write of memory that is not the program's. `System` says what `pls_save` has
-- of its system calls, also how much of the text is in the file when a flush or a sync fails.
--
-- A `gint` of the iterator and the renderer is a 32-bit pattern, negative from 2^31 on. The renderer
-- writes down each call that leaves it (`log`, the latest first), and what others answer is a function
-- of that: nothing is assumed of it but what a theorem says. Notifications that the worker sends before
-- a call returns are separate calls here, since that call is the last of its handler; only the
-- notification of a seek is not, and it is made in place, on fuel that bounds the depth. An error that
-- others raise stands as the number of its code. An object id
-- that is played on its own is not null.
--
-- Not modelled: printing (`pls_dump`), the release of memory (`pls_free`) and of GObjects, but for the
-- references that the assignment of a playlist drops, the other requests over D-Bus, the renderer's
-- properties, its play counts, the GStreamer worker but for its seek and the timer that a start removes
-- (what the worker does on its own is left out: it starts the next item of a media playlist, and sets
-- play_failed_count to 0 when a clip begins to play), the sources (Tracker, UPnP, internet radio) and
-- the GUI, most of which call third-party libraries.
pub mod Common
pub mod Aplaylist
pub mod Filter
pub mod Iterator
pub mod Manager
pub mod Metadata
pub mod Renderer
