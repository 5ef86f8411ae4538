-- ===== src/Handlers.antt =====
-- handlers/: the state behind the HTTP handlers.
pub mod SegCache
pub mod SegGrid
pub mod Torrents
pub mod Playback
pub mod Executor
pub mod Hls
pub mod HeaderCache
pub mod Mp4Index
pub mod MkvIndex
pub mod Thumbnails
