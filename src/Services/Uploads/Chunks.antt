-- ===== src/Services/Uploads/Chunks.antt =====
-- `put_chunk` of `UploadService`.
use Prim.Native.Nat.{min}
use rescs.Prelude.{
  String, ◌==◌, string_eq, nat_eq, ℕ, zero, suc, ◌+◌, Bool, true, false, not, ◌&&◌, ◌||◌, none,
  some, List, [], ◌∷◌, ltb, if◌then◌else◌, length,
}
use rescs.Prelude.Int.{ℤ, clip, lt_ℕ}
use rescs.Errors.{ok, err, conflict, invalid_request}
use rescs.Action.{Action, pure, lift, raise_if, ◌>>=◌, ◌>>◌}
use rescs.Dict
use rescs.Dict.{Dict}
use rescs.Domain.{UploadSessionData}
use rescs.Memory.Sessions as Sessions
use rescs.Memory.Blobs as Blobs
use rescs.World.{Runtime, World, BlobKey, chunk, blob_key_eq, utcnow}
use rescs.Services.Common.{Service, check_owner, on_error}
use rescs.Services.Uploads.Shared.{max_chunk, upload_ok, upload_error, get}

-- `existing == data`
unfoldable pub same_bytes : List ℕ → List ℕ → Bool
same_bytes [] [] = true
same_bytes (a ∷ as') (b ∷ bs) = a == b && same_bytes as' bs
same_bytes _ _ = false

-- The loop of `_received`, from an offset on; the fuel is the number of rounds allowed. A round
-- that goes on moves the offset up by at least one byte.
unfoldable pub received_from : ℕ → Dict BlobKey (List ℕ) → String → ℕ → ℕ → ℕ
received_from zero blobs id total offset = 0
received_from (suc fuel) blobs id total offset =
    if ltb offset total
    then elim (Dict.get (chunk id offset) blobs) [
      | none ↦ 0
      | some bytes ↦
          let rest = received_from fuel blobs id total (offset + length bytes) in
          if length bytes == 0 || ltb total (offset + length bytes)
          then length bytes
          else length bytes + rest
    ]
    else 0

-- `_received`: each round but the last moves the offset, so a round for each byte is enough.
unfoldable pub received : Dict BlobKey (List ℕ) → UploadSessionData → ℕ
unfolding received_from
received blobs session =
    min (received_from (suc session.total_size) blobs session.id session.total_size 0)
      session.total_size

-- The tests on the chunk, in the order of the code.
unfoldable pub check_chunk : UploadSessionData → ℤ → List ℕ → Action World (Unit {0})
check_chunk session offset bytes = do
  raise_if (length bytes == 0) invalid_request
  raise_if (lt_ℕ offset 0 || ltb session.total_size (clip offset + length bytes)) invalid_request
  raise_if
      (not (clip offset + length bytes == session.total_size)
        && not (length bytes == session.chunk_size))
      invalid_request
  raise_if (ltb max_chunk (length bytes)) invalid_request

module _ (rt : Runtime) (svc : Service) where
  -- What follows once no chunk stands at the offset.
  unfoldable pub store_chunk : UploadSessionData → ℕ → List ℕ → Action World UploadSessionData
  unfolding Blobs.put received utcnow Sessions.update
  store_chunk session offset bytes = do
    Blobs.put (chunk session.id offset) bytes
    count ← λ w. (ok (received w.blobs session), w)
    now ← utcnow rt
    updated ← Sessions.update (record session { received_bytes = count; updated_at = now })
    upload_ok rt svc "upload.chunk" session.id session.owner
    pure updated

  unfoldable pub write_chunk : UploadSessionData → ℕ → List ℕ → Action World UploadSessionData
  unfolding store_chunk same_bytes
  write_chunk session offset bytes w = elim (Dict.get (chunk session.id offset) w.blobs) [
    | none ↦ store_chunk session offset bytes w
    | some existing ↦ (if same_bytes existing bytes then ok session else err conflict, w)
  ]

  unfoldable pub put_chunk : String → ℤ → List ℕ → String → Action World UploadSessionData
  unfolding get check_chunk write_chunk
  put_chunk id offset bytes actor = on_error (upload_error rt svc "upload.chunk" id actor) (do
    session ← get rt svc id
    lift (check_owner svc.settings session.owner)
    check_chunk session offset bytes
    write_chunk session (clip offset) bytes)
