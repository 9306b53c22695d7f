-- ===== src/Vfs.antt =====
-- vfs/: paths, content types, the storage contract and the in-memory backend.
pub mod Path
pub mod ContentType
pub mod Storage
pub mod Memory
