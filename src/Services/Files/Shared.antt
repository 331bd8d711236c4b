-- ===== src/Services/Files/Shared.antt =====
-- What the operations of `FileService` share: the audit events, the quotas, and the removal of a file.
use rescs.Prelude.{
  String, ◌==◌, string_eq, nat_eq, ℕ, ◌+◌, Bool, true, false, not, ◌||◌, Option, none, some, leb,
  ltb, if◌then◌else◌,
}
use rescs.Errors.{Error, code, payload_too_large, quota_exceeded, precondition_failed}
use rescs.Action.{Action, pure, raise, lift, handle, raise_if, ◌>>=◌, ◌>>◌}
use rescs.Domain.{FileObjectData, Json}
use rescs.Memory.Files as Repo
use rescs.Memory.Blobs as Blobs
use rescs.World.{Runtime, World, object}
use rescs.Services.Common.{
  Settings, Service, LogEntry, audited, outcome_of, on_error, best_effort, exceeds,
  check_metadata_size,
}

abbrev pub id_of : Option FileObjectData → Option String
id_of none = none
id_of (some f) = some f.id

abbrev pub owner_of : Option FileObjectData → String → String
owner_of none owner = owner
owner_of (some f) owner = f.owner

-- The entry of `_audited` for a success and for an error.
abbrev pub success_entry : String → FileObjectData → LogEntry
success_entry operation f = record {
  operation = operation;
  resource_type = "file";
  resource_id = some f.id;
  owner = f.owner;
  outcome = "ok";
  error_code = none;
}

abbrev pub error_entry : String → Option FileObjectData → String → Error → LogEntry
error_entry operation target owner e = record {
  operation = operation;
  resource_type = "file";
  resource_id = id_of target;
  owner = owner_of target owner;
  outcome = outcome_of e;
  error_code = some (code e);
}

abbrev pub size_limit : Option Settings → ℕ
size_limit none = 0
size_limit (some s) = s.max_file_size

abbrev pub count_limit : Option Settings → ℕ
count_limit none = 0
count_limit (some s) = s.max_files_per_owner

abbrev pub byte_limit : Option Settings → ℕ
byte_limit none = 0
byte_limit (some s) = s.max_bytes_per_owner

-- The test of an etag in `delete`, `restore` and `purge`.
abbrev pub check_etag : FileObjectData → Option String → Action World (Unit {0})
check_etag existing none = pure tt
check_etag existing (some expected) = raise_if (not (existing.etag == expected)) precondition_failed

-- `_purge_row`: the delete of a memory store does not raise.
unfoldable pub purge_row : FileObjectData → Action World (Unit {0})
unfolding Repo.delete Blobs.delete
purge_row f = Repo.delete f.id >> Blobs.delete (object f.storage_path)

module _ (rt : Runtime) (svc : Service) where
  abbrev pub audited_ok : String → FileObjectData → Action World (Unit {0})
  audited_ok operation f = audited rt svc (success_entry operation f)

  abbrev pub audited_error :
      String → Option FileObjectData → String → Error → Action World (Unit {0})
  audited_error operation target owner e = audited rt svc (error_entry operation target owner e)

  -- `target = …` inside the `try`: from there on an error is logged with the file.
  abbrev pub with_target :
      {A : Type 0}
      → String
      → Action World FileObjectData
      → (FileObjectData → Action World A)
      → Action World A
  with_target operation m rest w =
      handle (m w)
        (λ target. on_error (audited_error operation (some target) "system") (rest target))
        (λ e. on_error (audited_error operation none "system") (raise e))

  -- The two quotas of `_check_governance`.
  unfoldable pub check_count : String → Action World (Unit {0})
  check_count owner = if count_limit svc.settings == 0 then pure tt else do
    count ← Repo.count_by_owner rt owner false
    raise_if (leb (count_limit svc.settings) count) quota_exceeded

  unfoldable pub check_bytes : String → ℕ → Action World (Unit {0})
  check_bytes owner size = if byte_limit svc.settings == 0 then pure tt else do
    used ← Repo.bytes_by_owner rt owner false
    raise_if (ltb (byte_limit svc.settings) (used + size)) quota_exceeded

  -- `_check_governance`
  unfoldable pub check_governance : String → ℕ → Json → Action World (Unit {0})
  unfolding check_metadata_size check_count check_bytes
  check_governance owner size metadata = do
    raise_if (exceeds size (size_limit svc.settings)) payload_too_large
    lift (check_metadata_size rt svc.settings metadata)
    check_count owner
    check_bytes owner size

  -- The two tests of `_enforce_post_write_quota`; the second is not made if the first fails.
  unfoldable pub has_too_many : String → Action World Bool
  has_too_many owner = if count_limit svc.settings == 0 then pure false else do
    count ← Repo.count_by_owner rt owner false
    pure (ltb (count_limit svc.settings) count)

  unfoldable pub has_too_much : Bool → String → Action World Bool
  has_too_much over owner =
      if over || byte_limit svc.settings == 0
      then pure over
      else do used ← Repo.bytes_by_owner rt owner false; pure (ltb (byte_limit svc.settings) used)

  -- Over the quota, the row and the blob go.
  unfoldable pub take_back : Bool → String → Action World (Unit {0})
  unfolding Repo.delete Blobs.delete
  take_back false id = pure tt
  take_back true id = do
    best_effort (Repo.delete id)
    Blobs.delete (object id)
    raise quota_exceeded

  -- `_enforce_post_write_quota`
  unfoldable pub enforce_quota : String → String → Action World (Unit {0})
  unfolding has_too_many has_too_much take_back
  enforce_quota owner id = do
    many ← has_too_many owner
    over ← has_too_much many owner
    take_back over id
