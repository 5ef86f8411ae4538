-- ===== src/Storage.antt =====
-- storage/: the RAM piece cache of the torrent client, its disk backing and its readers.
pub mod ReadClass
pub mod MemPiece
pub mod Disk
pub mod Window
pub mod Priority
pub mod Cache
pub mod Store
pub mod Piece
pub mod Reader
pub mod Preload
