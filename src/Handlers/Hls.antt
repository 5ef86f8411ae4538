-- ===== src/Handlers/Hls.antt =====
-- handlers/hls.go and handlers/external.go: the playlists of a file, and what each path serves.
--
-- A text is its list of code points. `Playlist` prints a media playlist, `Names` and `Labels` name
-- the tracks, `Master` prints the master playlist, `Route` is `HandleHls` and `Serve` the answer
-- from the segment cache. Times are whole milliseconds, as in SegGrid.
pub mod Playlist
pub mod Names
pub mod Labels
pub mod Master
pub mod Route
pub mod Serve
