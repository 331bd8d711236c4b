-- ===== src/Services/Files/Lifecycle.antt =====
-- `delete`, `restore` and `purge` of `FileService`.
use rescs.Prelude.{String, string_eq, nat_eq, ℕ, ◌+◌, not, Option, none, some, is_some}
use rescs.Errors.{invalid_request, storage}
use rescs.Action.{Action, pure, raise_if, ◌>>=◌, ◌>>◌}
use rescs.Domain.{FileObjectData}
use rescs.Memory.Files as Repo
use rescs.Memory.Blobs as Blobs
use rescs.World.{Runtime, World, object, blob_key_eq, utcnow}
use rescs.Services.Common.{Service}
use rescs.Services.Files.Shared.{audited_ok, with_target, check_etag, purge_row}

-- The tombstone of `delete` and the file of `restore`.
abbrev pub tombstone : FileObjectData → ℕ → ℕ → String → FileObjectData
tombstone existing updated deleted actor = record existing {
  version = existing.version + 1;
  updated_at = updated;
  deleted_at = some deleted;
  deleted_by = some actor;
}

abbrev pub revived : FileObjectData → ℕ → FileObjectData
revived existing updated = record existing {
  version = existing.version + 1;
  updated_at = updated;
  deleted_at = none;
  deleted_by = none;
}

-- `if not self._store.exists(existing.storage_path): raise StorageError(…)`
unfoldable pub check_stored : FileObjectData → Action World (Unit {0})
check_stored f w = raise_if (not (Blobs.exists (object f.storage_path) w)) storage w

module _ (rt : Runtime) (svc : Service) where
  unfoldable pub delete_target : String → Option String → FileObjectData → Action World (Unit {0})
  unfolding utcnow Repo.update
  delete_target actor expected existing = do
    check_etag existing expected
    updated ← utcnow rt
    deleted ← utcnow rt
    Repo.update (tombstone existing updated deleted actor)
    audited_ok rt svc "file.delete" (tombstone existing updated deleted actor)

  unfoldable pub delete : String → String → Option String → Action World (Unit {0})
  unfolding delete_target Repo.get
  delete id actor expected =
      with_target rt svc "file.delete" (Repo.get rt id) (delete_target actor expected)

  unfoldable pub restore_target : Option String → FileObjectData → Action World FileObjectData
  unfolding utcnow check_stored Repo.update
  restore_target expected existing = do
    raise_if (not (is_some existing.deleted_at)) invalid_request
    check_etag existing expected
    check_stored existing
    now ← utcnow rt
    result ← Repo.update (revived existing now)
    audited_ok rt svc "file.restore" result
    pure result

  unfoldable pub restore : String → Option String → Action World FileObjectData
  unfolding restore_target Repo.get_including_deleted
  restore id expected =
      with_target rt svc "file.restore" (Repo.get_including_deleted id) (restore_target expected)

  unfoldable pub purge_target : Option String → FileObjectData → Action World (Unit {0})
  unfolding purge_row
  purge_target expected existing = do
    check_etag existing expected
    purge_row existing
    audited_ok rt svc "file.purge" existing

  unfoldable pub purge : String → Option String → Action World (Unit {0})
  unfolding purge_target Repo.get_including_deleted
  purge id expected =
      with_target rt svc "file.purge" (Repo.get_including_deleted id) (purge_target expected)
