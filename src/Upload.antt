-- ===== src/Upload.antt =====
-- The upload server (upload/): live playlists, stream and file lifetimes, authorisation, requests.
pub mod M3u8
pub mod Playlist
pub mod Channels
pub mod Metrics
pub mod Registry
pub mod Hls
pub mod Stream
pub mod Store
pub mod Auth
pub mod Reader
pub mod Writer
pub mod Owners
pub mod Handler
pub mod Tests
