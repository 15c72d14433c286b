-- ===== src/Tracks.antt =====
-- The track list of a player: the paged list behind it, its queue, its walks, its shuffle and what it
-- publishes.
pub mod Paged
pub mod Track
pub mod TrackList
pub mod Views
pub mod Toggle
mod Tests
