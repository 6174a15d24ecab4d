-- ===== src/Playlist.antt =====
-- playlist/playlist.go, in parts.
pub mod Stored
pub mod Track
pub mod State
pub mod Shuffle
pub mod Slots
pub mod Navigation
pub mod Queueing
pub mod Editing
pub mod Smart
pub mod Loading
pub mod Views
pub mod Invariant
pub mod Session
pub mod Continuity
pub mod Revisions
