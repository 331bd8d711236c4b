-- ===== src/Services/Uploads.antt =====
-- `UploadService` of src/rescs/services/uploads.py, over the in-memory repositories and object store.
pub mod Shared
pub mod Chunks
pub mod Finalize
pub mod Cleanup
pub mod Quiet
pub mod Backed
