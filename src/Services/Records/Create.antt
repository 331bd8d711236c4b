-- ===== src/Services/Records/Create.antt =====
-- `RecordService.create` of src/rescs/services/records.py.
pub mod Quota
pub mod Replay
use rescs.Prelude.{
  String, ◌==◌, string_eq, nat_eq, ℕ, Bool, true, false, Option, none, some, leb, ltb,
  if◌then◌else◌, is_some,
}
use rescs.Errors.{conflict, quota_exceeded}
use rescs.Action.{Action, pure, raise, lift, raise_if, ◌>>=◌, ◌>>◌}
use rescs.Domain.{RecordData}
use rescs.Domain.Tags.{normalize_tags, validate_tags}
use rescs.Memory.Records as Repo
use rescs.World.{Runtime, World, utcnow, uuid4}
use rescs.Services.Common.{Service, content_etag, check_metadata_size, on_error, best_effort}
use rescs.Services.Expiry.{resolve_expiry}
use rescs.Services.Records.Audited.{max_records, audited_ok, audited_error}
use rescs.Services.Records.Payload.{RecordCreate}

-- The record that `create` writes.
abbrev pub new_record : Runtime → RecordCreate → Option ℕ → ℕ → String → RecordData
new_record rt p expires_at now id = record {
  id = id;
  namespace = p.namespace;
  key = p.key;
  value = p.value;
  metadata = p.metadata;
  owner = p.owner;
  version = 1;
  idempotency_key = p.idempotency_key;
  etag = content_etag rt p.value p.metadata (normalize_tags p.tags);
  created_at = now;
  updated_at = now;
  tags = normalize_tags p.tags;
  expires_at = expires_at;
  deleted_at = none;
  deleted_by = none;
}

module _ (rt : Runtime) (svc : Service) where
  -- `is_expired()`, which reads the clock only if there is an expiry.
  unfoldable pub expired_now : Option ℕ → Action World Bool
  unfolding utcnow
  expired_now none = pure false
  expired_now (some moment) = do now ← utcnow rt; pure (leb moment now)

  -- `_check_quota`
  unfoldable pub check_quota : String → Action World (Unit {0})
  check_quota owner = if max_records svc.settings == 0 then pure tt else do
    count ← Repo.count_by_owner rt owner false
    raise_if (leb (max_records svc.settings) count) quota_exceeded

  -- `_reclaim_expired_occupant`
  unfoldable pub reclaim_occupant : Option RecordData → Action World (Unit {0})
  unfolding expired_now
  reclaim_occupant none = pure tt
  reclaim_occupant (some occupant) = if is_some occupant.deleted_at then pure tt else do
    expired ← expired_now occupant.expires_at
    if expired then Repo.delete occupant.id else pure tt

  unfoldable pub reclaim_expired_occupant : String → String → Action World (Unit {0})
  unfolding reclaim_occupant Repo.find_occupant
  reclaim_expired_occupant namespace key = do
    occupant ← Repo.find_occupant namespace key
    reclaim_occupant occupant

  -- What `create` does with the record that has the idempotency key: a live one is returned.
  unfoldable pub replay_existing : Option RecordData → Action World (Option RecordData)
  unfolding expired_now
  replay_existing none = pure none
  replay_existing (some existing) = if is_some existing.deleted_at then raise conflict else do
    expired ← expired_now existing.expires_at
    if expired then Repo.delete existing.id >> pure none else pure (some existing)

  unfoldable pub replay : Option String → Action World (Option RecordData)
  unfolding replay_existing
  replay none = pure none
  replay (some key) = do existing ← Repo.find_by_idempotency_key key; replay_existing existing

  -- `try: self._repo.delete(id) except Exception: pass`, and the error.
  abbrev pub take_back : Bool → String → Action World (Unit {0})
  take_back true id = best_effort (Repo.delete id) >> raise quota_exceeded
  take_back false id = pure tt

  -- The guard after the write: with too many records, the new one is taken back.
  unfoldable pub quota_guard : String → String → Action World (Unit {0})
  quota_guard owner id = if max_records svc.settings == 0 then pure tt else do
    count ← Repo.count_by_owner rt owner false
    take_back (ltb (max_records svc.settings) count) id

  -- `create` from the reclaiming of the occupant on.
  unfoldable pub create_new : RecordCreate → Option ℕ → Action World RecordData
  unfolding reclaim_expired_occupant check_quota quota_guard utcnow uuid4
  create_new p expires_at = do
    reclaim_expired_occupant p.namespace p.key
    check_quota p.owner
    now ← utcnow rt
    id ← uuid4 rt
    created ← Repo.create rt (new_record rt p expires_at now id)
    quota_guard p.owner created.id
    audited_ok rt svc "record.create" created
    pure created

  abbrev pub create_unless : RecordCreate → Option ℕ → Option RecordData → Action World RecordData
  create_unless p expires_at none = create_new p expires_at
  create_unless p expires_at (some existing) = pure existing

  -- The body of the `try` of `create`.
  unfoldable pub create_body : RecordCreate → Action World RecordData
  unfolding replay create_new
  create_body p = do
    lift (validate_tags (normalize_tags p.tags))
    lift (check_metadata_size rt svc.settings p.metadata)
    expires_at ← resolve_expiry rt p.expires_at p.ttl_seconds svc.settings
    existing ← replay p.idempotency_key
    create_unless p expires_at existing

  unfoldable pub create : RecordCreate → Action World RecordData
  unfolding create_body
  create p = on_error (audited_error rt svc "record.create" none p.owner) (create_body p)
