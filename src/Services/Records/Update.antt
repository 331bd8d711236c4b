-- ===== src/Services/Records/Update.antt =====
-- `put` and `update` of `RecordService`.
use rescs.Prelude.{
  String, string_eq, nat_eq, ℕ, ◌+◌, Bool, not, ◌&&◌, ◌||◌, Option, none, some, List, if◌then◌else◌,
  is_some, or_else, truthy,
}
use rescs.Errors.{invalid_request, precondition_failed}
use rescs.Action.{Action, pure, lift, raise_if, ◌>>=◌, ◌>>◌}
use rescs.Domain.{RecordData}
use rescs.Domain.Tags.{normalize_tags, validate_tags}
use rescs.Memory.Records as Repo
use rescs.World.{Runtime, World, utcnow}
use rescs.Services.Common.{Service, content_etag, check_metadata_size, on_error}
use rescs.Services.Expiry.{resolve_expiry}
use rescs.Services.Records.Audited.{check_etag, audited_ok, audited_error}
use rescs.Services.Records.Payload.{RecordCreate, RecordUpdate}
use rescs.Services.Records.Create.{new_record, create}

module _ (rt : Runtime) (svc : Service) where
  -- `existing.idempotency_key or payload.idempotency_key`
  abbrev pub first_key : Option String → Option String → Option String
  first_key own given = elim (truthy own) [ none ↦ given | some key ↦ some key ]

  -- The record that `put` writes over one that exists.
  abbrev pub replacement : RecordCreate → RecordData → Option ℕ → ℕ → RecordData
  replacement p existing expires_at now = record (new_record rt p expires_at now existing.id) {
    version = existing.version + 1;
    idempotency_key = first_key existing.idempotency_key p.idempotency_key;
    created_at = existing.created_at;
  }

  -- `put` on a record that exists.
  unfoldable pub replace : RecordCreate → Option String → RecordData → Action World RecordData
  unfolding utcnow
  replace p expected existing = do
    check_etag existing expected
    lift (validate_tags (normalize_tags p.tags))
    lift (check_metadata_size rt svc.settings p.metadata)
    expires_at ← resolve_expiry rt p.expires_at p.ttl_seconds svc.settings
    now ← utcnow rt
    replaced ← Repo.update (replacement p existing expires_at now)
    audited_ok rt svc "record.put" replaced
    pure replaced

  abbrev pub put_on : RecordCreate → Option String → Option RecordData → Action World RecordData
  put_on p expected none = raise_if (is_some expected) precondition_failed >> create rt svc p
  put_on p expected (some existing) = replace p expected existing

  unfoldable pub put : RecordCreate → Option String → Action World RecordData
  unfolding replace create
  put p expected =
      on_error (audited_error rt svc "record.put" none p.owner)
        (do existing ← Repo.get_by_namespace_key rt p.namespace p.key; put_on p expected existing)

  -- `all(field is None for field in fields)`
  abbrev pub is_blank : RecordUpdate → Bool
  is_blank p =
      not (is_some p.value)
      && not (is_some p.metadata)
      && not (is_some p.namespace)
      && not (is_some p.key)
      && not (is_some p.tags)
      && not (is_some p.expires_at)
      && not (is_some p.ttl_seconds)

  abbrev pub updated_tags : RecordUpdate → RecordData → List String
  updated_tags p existing = elim p.tags [ none ↦ existing.tags | some tags ↦ normalize_tags tags ]

  -- The expiry of an updated record: the old one, unless the payload sets one.
  unfoldable pub updated_expiry : RecordUpdate → RecordData → Action World (Option ℕ)
  updated_expiry p existing =
      if is_some p.expires_at || is_some p.ttl_seconds
      then resolve_expiry rt p.expires_at p.ttl_seconds svc.settings
      else pure existing.expires_at

  -- The record that `update` writes.
  abbrev pub changed : RecordUpdate → RecordData → Option ℕ → ℕ → RecordData
  changed p existing expires_at now =
      let tags = updated_tags p existing in
      let metadata = or_else p.metadata existing.metadata in
      let value = or_else p.value existing.value in
      record existing {
        namespace = or_else p.namespace existing.namespace;
        key = or_else p.key existing.key;
        value = value;
        metadata = metadata;
        version = existing.version + 1;
        etag = content_etag rt value metadata tags;
        updated_at = now;
        tags = tags;
        expires_at = expires_at;
        deleted_at = none;
        deleted_by = none;
      }

  unfoldable pub update : String → RecordUpdate → Option String → Action World RecordData
  unfolding utcnow updated_expiry
  update id p expected = on_error (audited_error rt svc "record.update" none "system") (do
    existing ← Repo.get rt id
    check_etag existing expected
    raise_if (is_blank p) invalid_request
    lift (validate_tags (updated_tags p existing))
    lift (check_metadata_size rt svc.settings (or_else p.metadata existing.metadata))
    expires_at ← updated_expiry p existing
    now ← utcnow rt
    result ← Repo.update (changed p existing expires_at now)
    audited_ok rt svc "record.update" result
    pure result)
