-- ===== src/Services/Uploads/Finalize.antt =====
-- `finalize` of `UploadService`.
pub mod Layout
pub mod Stuck
use rescs.Prelude.{
  String, ◌==◌, string_eq, nat_eq, ℕ, zero, suc, ◌+◌, Bool, true, false, not, ◌&&◌, ◌||◌, Option,
  none, some, List, [], ◌∷◌, ◌++◌, leb, ltb, if◌then◌else◌, length, truthy,
}
use rescs.Errors.{
  Error, Result, ok, err, code, conflict, not_found, invalid_request, payload_too_large,
  quota_exceeded, rescs_error, storage,
}
use rescs.Action.{Action, pure, raise, lift, handle, raise_if, ◌>>=◌, ◌>>◌}
use rescs.Dict
use rescs.Dict.{Dict}
use rescs.Domain.{UploadSessionData, FileObjectData, Json, active, finalizing, finalized, expired}
use rescs.Memory.Sessions as Sessions
use rescs.Memory.Files as Files
use rescs.Memory.Blobs as Blobs
use rescs.World.{Runtime, World, BlobKey, object, chunk, blob_key_eq, utcnow, uuid4}
use rescs.Services.Common.{
  Settings, Service, file_etag, check_owner, check_metadata_size, on_error, exceeds, best_effort,
}
use rescs.Services.Uploads.Shared.{upload_ok, upload_error, unless_missing, max_file}
use rescs.Services.Uploads.Cleanup.{cleanup_chunks}

-- The loop that lays the chunks out from an offset on: their bytes, in order. Every round moves the
-- offset up by a byte or more; the error of a round too many is `rescs_error`, which no round raises.
unfoldable pub layout_from : ℕ → Dict BlobKey (List ℕ) → String → ℕ → ℕ → Result (List ℕ)
layout_from zero blobs id total offset = err rescs_error
layout_from (suc fuel) blobs id total offset =
    if ltb offset total
    then elim (Dict.get (chunk id offset) blobs) [
      | none ↦ err invalid_request
      | some bytes ↦
          let rest = layout_from fuel blobs id total (offset + length bytes) in
          if length bytes == 0 || ltb total (offset + length bytes)
          then err invalid_request
          else elim rest [ ok more ↦ ok (bytes ++ more) | err e ↦ err e ]
    ]
    else (if offset == total then ok [] else err invalid_request)

unfoldable pub layout : Dict BlobKey (List ℕ) → UploadSessionData → Result (List ℕ)
unfolding layout_from
layout blobs session = layout_from (suc session.total_size) blobs session.id session.total_size 0

abbrev pub max_files : Option Settings → ℕ
max_files none = 0
max_files (some s) = s.max_files_per_owner

abbrev pub max_bytes : Option Settings → ℕ
max_bytes none = 0
max_bytes (some s) = s.max_bytes_per_owner

module _ (rt : Runtime) (svc : Service) where
  -- `_check_finalize_governance`
  unfoldable pub check_governance : String → ℕ → Json → Action World (Unit {0})
  unfolding check_metadata_size
  check_governance owner size metadata = do
    raise_if (exceeds size (max_file svc.settings)) payload_too_large
    lift (check_metadata_size rt svc.settings metadata)
    if max_files svc.settings == 0 then pure tt else (do
      count ← Files.count_by_owner rt owner false
      raise_if (leb (max_files svc.settings) count) quota_exceeded)
    if max_bytes svc.settings == 0 then pure tt else (do
      used ← Files.bytes_by_owner rt owner false
      raise_if (ltb (max_bytes svc.settings) (used + size)) quota_exceeded)

  -- The session is put back to `active`, for another try.
  unfoldable pub reopen : UploadSessionData → Action World (Unit {0})
  unfolding utcnow Sessions.update
  reopen session = do
    now ← utcnow rt
    unless_missing (Sessions.update (record session { status = active; updated_at = now }))

  -- The two tests of the guard after the write; the second is not made if the first fails.
  unfoldable pub over_quota : String → Action World Bool
  over_quota owner = do
    files ←
        (if max_files svc.settings == 0 then pure false else (do
          count ← Files.count_by_owner rt owner false
          pure (ltb (max_files svc.settings) count)))
    if files || max_bytes svc.settings == 0 then pure files else (do
      used ← Files.bytes_by_owner rt owner false
      pure (ltb (max_bytes svc.settings) used))

  abbrev pub roll_back : Bool → UploadSessionData → String → Action World (Unit {0})
  roll_back false session id = pure tt
  roll_back true session id = do
    best_effort (Files.delete id)
    Blobs.delete (object id)
    reopen session
    raise quota_exceeded

  -- The metadata of the new file.
  abbrev pub file_of : UploadSessionData → String → List ℕ → ℕ → FileObjectData
  file_of session id bytes now = record {
    id = id;
    filename = session.filename;
    mime_type = session.content_type;
    size = session.total_size;
    storage_path = id;
    sha256 = rt.sha256 bytes;
    metadata = session.metadata;
    owner = session.owner;
    version = 1;
    idempotency_key = none;
    etag = file_etag rt (rt.sha256 bytes) session.total_size;
    created_at = now;
    updated_at = now;
    tags = session.tags;
    expires_at = none;
    deleted_at = none;
    deleted_by = none;
  }

  -- `session.checksum and session.checksum.lower() != hex_digest.lower()`
  abbrev pub is_mismatch : Option String → List ℕ → Bool
  is_mismatch expected bytes = elim (truthy expected) [
    | none ↦ false
    | some sum ↦ not (rt.lower sum == rt.lower (rt.sha256 bytes))
  ]

  abbrev pub refuse_mismatch : Bool → UploadSessionData → String → Action World (Unit {0})
  refuse_mismatch false session id = pure tt
  refuse_mismatch true session id = do
    Blobs.delete (object id)
    reopen session
    raise invalid_request

  -- `self._files.create`, with the blob removed and the session reopened if it raises.
  unfoldable pub create_file : UploadSessionData → FileObjectData → Action World FileObjectData
  create_file session file w =
      handle (Files.create file w) pure
        (λ e. Blobs.delete (object file.id) >> reopen session >> raise e)

  -- The end of `finalize`: the session and its chunks go.
  unfoldable pub close_session : UploadSessionData → Action World (Unit {0})
  unfolding utcnow Sessions.update Sessions.delete cleanup_chunks
  close_session session = do
    now ← utcnow rt
    unless_missing (
        Sessions.update (record session {
          status = finalized;
          received_bytes = session.total_size;
          updated_at = now;
        }))
    cleanup_chunks session.id session.total_size
    unless_missing (Sessions.delete session.id)

  -- From the streaming of the chunks on.
  unfoldable pub publish : UploadSessionData → List ℕ → Action World FileObjectData
  unfolding uuid4 utcnow Blobs.put Blobs.delete reopen create_file over_quota close_session
  publish session bytes = do
    id ← uuid4 rt
    Blobs.put (object id) bytes
    refuse_mismatch (is_mismatch session.checksum bytes) session id
    now ← utcnow rt
    created ← create_file session (file_of session id bytes now)
    over ← over_quota session.owner
    roll_back over session id
    close_session session
    upload_ok rt svc "upload.finalize" session.id session.owner
    pure created

  -- What follows the compare-and-set that was won.
  unfoldable pub assemble : UploadSessionData → Action World FileObjectData
  unfolding layout check_governance publish
  assemble session = do
    bytes ← λ w. (layout w.blobs session, w)
    check_governance session.owner session.total_size session.metadata
    publish session bytes

  unfoldable pub expire_at_finalize : Bool → UploadSessionData → Action World (Unit {0})
  unfolding Sessions.update
  expire_at_finalize false session = pure tt
  expire_at_finalize true session = do
    unless_missing (Sessions.update (record session { status = expired }))
    raise not_found

  -- `except NotFoundError: raise ConflictError(…)` around the compare-and-set.
  abbrev pub gone_is_conflict : Error → Action World Bool
  gone_is_conflict not_found = raise conflict
  gone_is_conflict e = raise e

  unfoldable pub win : String → Action World Bool
  unfolding Sessions.compare_and_set_status
  win id w =
      handle (Sessions.compare_and_set_status rt id active finalizing w) pure gone_is_conflict

  unfoldable pub finalize : String → String → Action World FileObjectData
  unfolding win expire_at_finalize assemble Sessions.get utcnow
  finalize id actor = on_error (upload_error rt svc "upload.finalize" id actor) (do
    session ← Sessions.get id
    lift (check_owner svc.settings session.owner)
    raise_if (not (Sessions.status_beq session.status active)) conflict
    now ← utcnow rt
    expire_at_finalize (leb session.expires_at now) session
    won ← win id
    current ← Sessions.get id
    raise_if (not won) conflict
    assemble current)
