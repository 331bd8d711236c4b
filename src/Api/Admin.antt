-- ===== src/Api/Admin.antt =====
-- The routes of src/rescs/api/routers/admin.py.
use rescs.Prelude.{
  String, string_eq, nat_eq, ◌==◌, ℕ, ◌-◌, ◌*◌, Bool, Option, some, if◌then◌else◌, length, false,
  true,
}
use rescs.Prelude.Int.{ℤ}
use rescs.Action.{Action, pure, lift, ◌>>=◌}
use rescs.Domain.{RecordData, FileObjectData, AuditData, Page, aware}
use rescs.Memory.Sessions as Sessions
use rescs.Security.{scoped_query_owner}
use rescs.World.{Runtime, World, utcnow}
use rescs.Services.Common.{Settings, Service}
use rescs.Services.Records.Listing as Records
use rescs.Services.Files.Listing as Files
use rescs.Services.Uploads.Cleanup as Uploads
use rescs.Services.Audit as Audit
use rescs.Services.Audit.{AuditFilter}
use rescs.Api.Requests.{Caller}

pub record CleanupRequest : Type 0 where
  pub dry_run : Bool
  pub batch : ℕ

pub record CleanupResponse : Type 0 where
  pub dry_run : Bool
  pub records_purged : ℕ
  pub files_purged : ℕ
  pub audit_pruned : ℕ
  pub uploads_cleaned : ℕ

-- `timedelta(days=1)`, in microseconds.
abbrev pub day : ℕ
day = 24 * 3600 * 1000000

module _ (rt : Runtime) (svc : Service) (settings : Settings) (caller : Caller) where
  unfoldable pub preview : ℕ → ℕ → Action World CleanupResponse
  unfolding Records.count_expired Files.count_expired Sessions.list_expired
  preview now batch = do
    records ← Records.count_expired rt svc batch
    files ← Files.count_expired rt svc batch
    sessions ← Sessions.list_expired now batch
    pure (record {
      dry_run = true;
      records_purged = records;
      files_purged = files;
      audit_pruned = 0;
      uploads_cleaned = length sessions;
    })

  -- The last step, with `settings.audit_retention_days`. No event is older than the epoch, where the
  -- difference stops.
  unfoldable pub prune : ℕ → ℕ → Action World ℕ
  unfolding Audit.prune_before
  prune retention now =
      if retention == 0 then pure 0 else Audit.prune_before (aware (now - retention * day))

  unfoldable pub clean : ℕ → ℕ → ℕ → Action World CleanupResponse
  unfolding Records.cleanup_expired Files.cleanup_expired Uploads.cleanup_expired prune
  clean retention now batch = do
    records ← Records.cleanup_expired rt svc caller.principal batch
    files ← Files.cleanup_expired rt svc caller.principal batch
    sessions ← Uploads.cleanup_expired rt svc caller.principal batch
    pruned ← prune retention now
    pure (record {
      dry_run = false;
      records_purged = records;
      files_purged = files;
      audit_pruned = pruned;
      uploads_cleaned = sessions;
    })

  unfoldable pub run_cleanup : ℕ → CleanupRequest → Action World CleanupResponse
  unfolding utcnow preview clean
  run_cleanup retention payload = do
    now ← utcnow rt
    if payload.dry_run then preview now payload.batch else clean retention now payload.batch

  unfoldable pub list_audit : AuditFilter → ℤ → ℤ → Action World (Page AuditData)
  unfolding scoped_query_owner Audit.list
  list_audit f limit offset = do
    owner ← lift (scoped_query_owner f.owner caller.principal settings.api_key_owner)
    Audit.list (record f { owner = some owner }) limit offset

  unfoldable pub list_deleted_records :
      Option String → Option String → ℤ → ℤ → Action World (Page RecordData)
  unfolding scoped_query_owner Records.list_deleted
  list_deleted_records namespace requested limit offset = do
    owner ← lift (scoped_query_owner requested caller.principal settings.api_key_owner)
    Records.list_deleted rt svc namespace (some owner) limit offset

  unfoldable pub list_deleted_files : Option String → ℤ → ℤ → Action World (Page FileObjectData)
  unfolding scoped_query_owner Files.list_deleted
  list_deleted_files requested limit offset = do
    owner ← lift (scoped_query_owner requested caller.principal settings.api_key_owner)
    Files.list_deleted rt svc (some owner) limit offset
