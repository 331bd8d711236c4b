-- ===== src/Services/Records.antt =====
-- `RecordService` of src/rescs/services/records.py, over the in-memory repository.
pub mod Payload
pub mod Audited
pub mod Invariant
pub mod Create
pub mod Update
pub mod Lifecycle
pub mod Listing
pub mod Bulk
