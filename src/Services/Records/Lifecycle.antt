-- ===== src/Services/Records/Lifecycle.antt =====
-- `delete`, `restore` and `purge` of `RecordService`.
pub mod Etags
pub mod SoftDelete
pub mod Restore
use rescs.Prelude.{
  String, ◌==◌, string_eq, nat_eq, ℕ, ◌+◌, Bool, false, not, Option, none, some, is_some,
}
use rescs.Errors.{conflict, invalid_request}
use rescs.Action.{Action, pure, raise_if, ◌>>=◌, ◌>>◌}
use rescs.Domain.{RecordData}
use rescs.Memory.Records as Repo
use rescs.World.{Runtime, World, utcnow}
use rescs.Services.Common.{Service}
use rescs.Services.Records.Audited.{check_etag, audited_ok, with_target}

-- The tombstone of `delete` and the record of `restore`.
abbrev pub tombstone : RecordData → ℕ → ℕ → String → RecordData
tombstone existing updated deleted actor = record existing {
  version = existing.version + 1;
  updated_at = updated;
  deleted_at = some deleted;
  deleted_by = some actor;
}

abbrev pub revived : RecordData → ℕ → RecordData
revived existing updated = record existing {
  version = existing.version + 1;
  updated_at = updated;
  deleted_at = none;
  deleted_by = none;
}

module _ (rt : Runtime) (svc : Service) where
  unfoldable pub delete_target : String → Option String → RecordData → Action World (Unit {0})
  unfolding utcnow
  delete_target actor expected existing = do
    check_etag existing expected
    updated ← utcnow rt
    deleted ← utcnow rt
    Repo.update (tombstone existing updated deleted actor)
    audited_ok rt svc "record.delete" (tombstone existing updated deleted actor)

  unfoldable pub delete : String → String → Option String → Action World (Unit {0})
  unfolding delete_target
  delete id actor expected =
      with_target rt svc "record.delete" (Repo.get rt id) (delete_target actor expected)

  -- `occupant is not None and occupant.id != existing.id`
  abbrev pub is_other : RecordData → Option RecordData → Bool
  is_other existing none = false
  is_other existing (some occupant) = not (occupant.id == existing.id)

  unfoldable pub restore_target : Option String → RecordData → Action World RecordData
  unfolding utcnow
  restore_target expected existing = do
    raise_if (not (is_some existing.deleted_at)) invalid_request
    check_etag existing expected
    occupant ← Repo.get_by_namespace_key rt existing.namespace existing.key
    raise_if (is_other existing occupant) conflict
    now ← utcnow rt
    result ← Repo.update (revived existing now)
    audited_ok rt svc "record.restore" result
    pure result

  unfoldable pub restore : String → Option String → Action World RecordData
  unfolding restore_target
  restore id expected =
      with_target rt svc "record.restore" (Repo.get_including_deleted id) (restore_target expected)

  unfoldable pub purge_target : String → Option String → RecordData → Action World (Unit {0})
  purge_target id expected target = do
    check_etag target expected
    Repo.delete id
    audited_ok rt svc "record.purge" target

  unfoldable pub purge : String → Option String → Action World (Unit {0})
  unfolding purge_target
  purge id expected =
      with_target rt svc "record.purge" (Repo.get_including_deleted id) (purge_target id expected)
