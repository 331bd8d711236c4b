-- ===== src/Services/Records/Lifecycle/Etags.antt =====
-- What the etag that a client sends guards.
use rescs.Prelude.{String, string_eq, ◌≡◌, ◌≢◌, true, some, arith, none}
use rescs.Errors.{err, precondition_failed}
use rescs.Dict.{get}
use rescs.Domain.{RecordData}
use rescs.Memory.Records.{live}
use rescs.Memory.Records.Laws.{get_found, including_deleted_found, tick}
use rescs.World.{Runtime, World}
use rescs.Services.Common.{Service}
use rescs.Services.Common.Laws.{audited_silent}
use rescs.Services.Records.Audited.{error_entry}
use rescs.Services.Records.Payload.{RecordUpdate}
use rescs.Services.Records.Update.{update}
use rescs.Services.Records.Lifecycle.{delete, purge}

module _ (rt : Runtime) (svc : Service) where
  -- With an etag that is not that of the stored record, which is live, `update`, `delete` and `purge`
  -- raise `PreconditionFailedError` and leave every record as it was.
  pub stale_etag_refused :
      (id actor etag : String) (p : RecordUpdate) (r : RecordData) (w : World)
      → get id w.records.items ≡ some r
      → live r (rt.clock w.ticks) ≡ true
      → r.etag ≢ etag
      → ((update rt svc id p (some etag) w).0 ≡ err precondition_failed)
        × ((update rt svc id p (some etag) w).1.records ≡ w.records)
        × ((delete rt svc id actor (some etag) w).0 ≡ err precondition_failed)
        × ((delete rt svc id actor (some etag) w).1.records ≡ w.records)
        × ((purge rt svc id (some etag) w).0 ≡ err precondition_failed)
        × ((purge rt svc id (some etag) w).1.records ≡ w.records)
  unfolding update delete purge
  stale_etag_refused id actor etag p r w there alive differ = ground (
    arith,
    string_eq.beq_iff r.etag etag,
    get_found rt id w r there,
    including_deleted_found id r w there,
    audited_silent rt svc (error_entry "record.update" none "system" precondition_failed) (tick w),
    audited_silent rt svc (error_entry "record.delete" (some r) "system" precondition_failed)
        (tick w),
    audited_silent rt svc (error_entry "record.purge" (some r) "system" precondition_failed) w,
  )
