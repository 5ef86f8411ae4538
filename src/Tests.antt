-- ===== src/Tests.antt =====
-- Concrete inputs: runs of the modelled code, and the theorems at inputs where their conditions hold.
mod Data
mod Segments
mod Media
mod Servers
mod Jobs
mod Readers
mod Playbacks
mod Catalogs
mod Eviction
mod Pieces
mod Renditions
mod Playlists
mod Headers
mod Containers
