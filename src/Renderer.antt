-- ===== src/Renderer.antt =====
-- mafw-gst-renderer/libmafw-gst-renderer: mafw-gst-renderer.c and its states.
pub mod Types
pub mod Media
pub mod Playback
pub mod Seek
pub mod States
pub mod Policy
pub mod Assign
pub mod WorkerErrors
pub mod Assigned
pub mod Machine
pub mod Settled
pub mod Playing
pub mod Clients
pub mod Seeks
pub mod Notified
pub mod Errors
pub mod Invariant
pub mod Interrupt
pub mod Trying
pub mod Failing
pub mod Stops
pub mod Timers
pub mod Tests
