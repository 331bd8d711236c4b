-- ===== src/Memory.antt =====
-- src/rescs/repositories/memory.py: the in-memory repositories.
pub mod Store
pub mod Records
pub mod Files
pub mod Sessions
pub mod Blobs
