-- ===== src/Services/Files/Create.antt =====
-- `create` and `create_stream` of `FileService`.
use rescs.Prelude.{
  String, string_eq, nat_eq, ℕ, ◌+◌, Bool, false, Option, none, some, List, [], ◌∷◌, ◌++◌, leb,
  if◌then◌else◌, length, is_some, ◌&&◌, not, ◌==◌,
}
use rescs.Prelude.Int.{ℤ}
use rescs.Errors.{Error, Result, ok, err, conflict, payload_too_large}
use rescs.Action.{Action, pure, raise, lift, handle, ◌>>=◌, ◌>>◌}
use rescs.Domain.{FileObjectData, Json, Datetime}
use rescs.Domain.Tags.{normalize_tags, validate_tags}
use rescs.Memory.Files as Repo
use rescs.Memory.Blobs as Blobs
use rescs.World.{Runtime, World, object, utcnow, uuid4}
use rescs.Services.Common.{Service, file_etag, on_error, exceeds}
use rescs.Services.Expiry.{resolve_expiry}
use rescs.Services.Files.Shared.{
  audited_ok, audited_error, purge_row, check_governance, enforce_quota, size_limit,
}

-- `FileObjectCreate` of src/rescs/schemas/file_object.py.
pub record FileObjectCreate : Type 0 where
  pub filename : String
  pub mime_type : String
  pub metadata : Json
  pub owner : String
  pub idempotency_key : Option String
  pub tags : List String
  pub expires_at : Option Datetime
  pub ttl_seconds : Option ℤ

-- The metadata that is stored with the bytes.
abbrev pub new_file : Runtime → FileObjectCreate → Option ℕ → ℕ → String → List ℕ → FileObjectData
new_file rt p expires_at now id bytes = record {
  id = id;
  filename = p.filename;
  mime_type = p.mime_type;
  size = length bytes;
  storage_path = id;
  sha256 = rt.sha256 bytes;
  metadata = p.metadata;
  owner = p.owner;
  version = 1;
  idempotency_key = p.idempotency_key;
  etag = file_etag rt (rt.sha256 bytes) (length bytes);
  created_at = now;
  updated_at = now;
  tags = normalize_tags p.tags;
  expires_at = expires_at;
  deleted_at = none;
  deleted_by = none;
}

-- `_bounded`, with the chunks joined: empty ones are skipped, and the first one that leads beyond the
-- limit raises, before anything is stored.
unfoldable pub bounded : ℕ → ℕ → List (List ℕ) → Result (List ℕ)
bounded limit size [] = ok []
bounded limit size (chunk ∷ chunks) =
    let rest = bounded limit (size + length chunk) chunks in
    if exceeds (size + length chunk) limit && not (length chunk == 0)
    then err payload_too_large
    else elim rest [ ok more ↦ ok (chunk ++ more) | err e ↦ err e ]

module _ (rt : Runtime) where
  -- `is_expired()`, which reads the clock only if there is an expiry.
  unfoldable pub expired_now : Option ℕ → Action World Bool
  unfolding utcnow
  expired_now none = pure false
  expired_now (some moment) = do now ← utcnow rt; pure (leb moment now)

  -- What is done with the file that has the idempotency key: a live one is returned.
  unfoldable pub replay_existing : Option FileObjectData → Action World (Option FileObjectData)
  unfolding expired_now purge_row
  replay_existing none = pure none
  replay_existing (some existing) = if is_some existing.deleted_at then raise conflict else do
    expired ← expired_now existing.expires_at
    if expired then purge_row existing >> pure none else pure (some existing)

  unfoldable pub replay : Option String → Action World (Option FileObjectData)
  unfolding replay_existing Repo.find_by_idempotency_key
  replay none = pure none
  replay (some key) = do existing ← Repo.find_by_idempotency_key key; replay_existing existing

-- `self._repo.create`, with the blob removed if it raises.
unfoldable pub insert_file : FileObjectData → Action World FileObjectData
unfolding Repo.create Blobs.delete
insert_file f w = handle (Repo.create f w) pure (λ e. Blobs.delete (object f.id) >> raise e)

module _ (rt : Runtime) (svc : Service) where
  -- The end of both operations, with the metadata made.
  unfoldable pub publish : FileObjectData → Action World FileObjectData
  unfolding insert_file enforce_quota
  publish f = do
    created ← insert_file f
    enforce_quota rt svc f.owner created.id
    audited_ok rt svc "file.upload" created
    pure created

  -- `create` from the governance on.
  unfoldable pub create_new : FileObjectCreate → List ℕ → Option ℕ → Action World FileObjectData
  unfolding check_governance utcnow uuid4 Blobs.put publish
  create_new p bytes expires_at = do
    check_governance rt svc p.owner (length bytes) p.metadata
    now ← utcnow rt
    id ← uuid4 rt
    Blobs.put (object id) bytes
    publish (new_file rt p expires_at now id bytes)

  abbrev pub create_unless :
      FileObjectCreate → List ℕ → Option ℕ → Option FileObjectData → Action World FileObjectData
  create_unless p bytes expires_at none = create_new p bytes expires_at
  create_unless p bytes expires_at (some existing) = pure existing

  -- The body of the `try` of `create`.
  unfoldable pub create_body : FileObjectCreate → List ℕ → Action World FileObjectData
  unfolding replay create_new
  create_body p bytes = do
    lift (validate_tags (normalize_tags p.tags))
    expires_at ← resolve_expiry rt p.expires_at p.ttl_seconds svc.settings
    existing ← replay rt p.idempotency_key
    create_unless p bytes expires_at existing

  unfoldable pub create : FileObjectCreate → List ℕ → Action World FileObjectData
  unfolding create_body
  create p bytes = on_error (audited_error rt svc "file.upload" none p.owner) (create_body p bytes)

  -- `create_stream` from the writing of the chunks on, under the id that it made first.
  unfoldable pub stream_new :
      FileObjectCreate → List (List ℕ) → String → Option ℕ → Action World FileObjectData
  unfolding bounded check_governance utcnow Blobs.put publish
  stream_new p chunks id expires_at = do
    bytes ← lift (bounded (size_limit svc.settings) 0 chunks)
    Blobs.put (object id) bytes
    check_governance rt svc p.owner (length bytes) p.metadata
    now ← utcnow rt
    publish (new_file rt p expires_at now id bytes)

  abbrev pub stream_unless :
      FileObjectCreate
      → List (List ℕ)
      → String
      → Option ℕ
      → Option FileObjectData
      → Action World FileObjectData
  stream_unless p chunks id expires_at none = stream_new p chunks id expires_at
  stream_unless p chunks id expires_at (some existing) = pure existing

  -- The body of its `try`.
  unfoldable pub stream_body :
      FileObjectCreate → List (List ℕ) → String → Action World FileObjectData
  unfolding replay stream_new
  stream_body p chunks id = do
    lift (validate_tags (normalize_tags p.tags))
    expires_at ← resolve_expiry rt p.expires_at p.ttl_seconds svc.settings
    existing ← replay rt p.idempotency_key
    stream_unless p chunks id expires_at existing

  -- Its handler: the blob goes before the error is logged.
  unfoldable pub stream_failed : String → String → Error → Action World (Unit {0})
  unfolding Blobs.delete
  stream_failed id owner e =
      Blobs.delete (object id) >> audited_error rt svc "file.upload" none owner e

  unfoldable pub create_stream : FileObjectCreate → List (List ℕ) → Action World FileObjectData
  unfolding uuid4 stream_body stream_failed
  create_stream p chunks = do
    id ← uuid4 rt
    on_error (stream_failed id p.owner) (stream_body p chunks id)
