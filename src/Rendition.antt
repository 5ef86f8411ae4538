-- ===== src/Rendition.antt =====
-- media/rendition/: the selection and the life cycle of HLS video renditions.
pub mod Errors
pub mod Lifecycle
pub mod Contract
pub mod Identity
pub mod Candidates
pub mod Manager
pub mod Session
