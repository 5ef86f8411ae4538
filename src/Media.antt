-- ===== src/Media.antt =====
-- media/: the parts of the media pipeline that do not call libav.
pub mod Packets
pub mod Boxes
pub mod Fragments
pub mod TranscodeGate
pub mod Output
