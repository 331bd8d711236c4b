-- ===== src/Lib.antt =====
-- RESCS: a cloud storage service for records and files, over in-memory repositories.
--
-- The program. A service of src/rescs/services checks a request, calls the repositories of
-- src/rescs/repositories and the object store of src/rescs/storage, and leaves an audit event;
-- src/rescs/security.py and src/rescs/rate_limit.py stand in front of it.
--
-- The files.
--   Prelude, Dict, Action: the native numbers and texts, Python's `dict` as an association list in
--     the order of insertion, and actions. An action takes the state to a result and a state; what
--     was written before a raise stays written.
--   Errors: src/rescs/errors.py.
--   Domain, Domain/Tags: src/rescs/domain.py.
--   Memory/Store: `_InMemoryStore` of src/rescs/repositories/memory.py, with `fetch` for its `get`
--     and `count_items` for its `count`. Invariant, Reach, Effects, Sorting, Pages and Refinement are
--     about it; Abstract has the maps that it refines.
--   Memory/Records, Memory/Files, Memory/Sessions: the repositories of the same file, method by
--     method; Memory/Blobs: src/rescs/storage/memory.py.
--   World: the state that the services share, and the parameters of the model.
--   Services/Common: src/rescs/services/utils.py, src/rescs/etag.py, `AuditService.log` of
--     src/rescs/services/audit.py, and the limits of src/rescs/config.py.
--   Services/Keeps: what actions keep and see to, put together from their parts.
--   Services/Audit: the rest of src/rescs/services/audit.py and of its repository.
--   Services/Expiry: src/rescs/services/expiry.py.
--   Services/Records: `RecordService` of src/rescs/services/records.py; Payload has the fields of
--     src/rescs/schemas/record.py, Create `create`, Update `put` and `update`, Lifecycle `delete`,
--     `restore` and `purge`, Listing the listings and `cleanup_expired`, Bulk `bulk`; Invariant is
--     about all the operations that change a record.
--   Services/Files: `FileService` of src/rescs/services/files.py; Shared has its checks and quotas,
--     Create `create` and `create_stream`, Download the two downloads, Lifecycle `delete`, `restore`
--     and `purge`, Listing the listings and `cleanup_expired`; Quiet and Backed are about the files
--     and their blobs together, and Services/Triples has the rules that they use.
--   Services/Uploads: `UploadService` of src/rescs/services/uploads.py; Shared has `create` and
--     `get`, Chunks `put_chunk`, Finalize `finalize`, Cleanup `cancel` and `cleanup_expired`; Quiet and
--     Backed carry the files and their blobs through them.
--   Security: src/rescs/security.py. RateLimit: src/rescs/rate_limit.py. Config: src/rescs/config.py.
--   Api: the routes of src/rescs/api/routers. Requests has `parse_etag` of src/rescs/api/deps.py, the
--     scope of a device and the validators of src/rescs/schemas/record.py; Records, Files, Uploads and
--     Admin have the routes of the files of these names. Denied, Lock, Listings, Devices, Replay and
--     Names are about what the routes let a caller see and do.
--   Tests: runs on concrete states, and each theorem at one of them.
--
-- The parameters. `Runtime` holds what the program takes from its surroundings: the clock, whose
-- n-th reading may be anything, `uuid4`, `json.dumps` and `hashlib`. A stored time is a UTC instant in
-- microseconds. The id of a chunk, which the code spells as one text, is kept as the session and the
-- offset. Texts and details of errors are left out. `urllib.parse.quote`, `datetime.fromisoformat` and
-- `int` of a text are arguments of the routes that call them, and so are the two settings that only a
-- route reads.
--
-- The loops. `_received`, the layout in `finalize` and `_cleanup_chunks` move an offset up in each
-- round: their fuel is one more than the number of bytes of the upload, or two. `chunks` of a route
-- takes at least one byte in a round, and its fuel is the number of bytes. The methods of a store and
-- of `finalize` hold a lock and are single steps.
--
-- Not modelled: the validators of the payloads of files and uploads; the SQL repositories, the local
-- and S3 object stores and the backup script, which are calls of libraries; health probes, metrics,
-- logging and the JSON of responses; the range of `datetime`, so that an expiry far beyond it is a sum
-- like any other.
pub mod Prelude
pub mod Dict
pub mod Errors
pub mod Action
pub mod Domain
pub mod Memory
pub mod World
pub mod Services
pub mod Security
pub mod RateLimit
pub mod Config
pub mod Api
pub mod Tests
