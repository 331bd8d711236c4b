-- ===== src/Services/Files.antt =====
-- `FileService` of src/rescs/services/files.py, over the in-memory repository and object store.
pub mod Shared
pub mod Create
pub mod Download
pub mod Lifecycle
pub mod Listing
pub mod Quiet
pub mod Backed
