-- ===== src/Services/Uploads/Finalize/Stuck.antt =====
-- What a `finalize` of an incomplete upload leaves behind.
use rescs.Prelude.{String, string_eq, ℕ, ◌+◌, ◌≡◌, refl, false, some, List, arith, leb}
use rescs.Prelude.Int.{ℤ}
use rescs.Errors.{ok, err, conflict, not_found, invalid_request}
use rescs.Dict.{get, set}
use rescs.Dict.Laws.{get-set_self}
use rescs.Domain.{UploadSessionData, active, finalizing}
use rescs.Memory.Sessions as Sessions
use rescs.World.{Runtime, World, blob_key_eq}
use rescs.Errors.{code}
use rescs.Services.Common.{outcome_of, Service, check_owner}
use rescs.Services.Common.Laws.{audited_silent}
use rescs.Services.Uploads.Shared.{upload_entry, owner_or}
use rescs.Services.Uploads.Chunks.{put_chunk}
use rescs.Services.Uploads.Finalize.{finalize, layout}

module _ (rt : Runtime) (svc : Service) (id actor : String) where
  -- A session in the status `finalizing` is closed to `put_chunk` and to `finalize`, and
  -- `cleanup_expired` never takes it.
  pub finalizing_is_closed :
      (w : World) (s : UploadSessionData) (offset : ℤ) (bytes : List ℕ) (moment : ℕ)
      → get id w.sessions ≡ some s
      → s.status ≡ finalizing
      → check_owner svc.settings s.owner ≡ ok tt
      → ((put_chunk rt svc id offset bytes actor w).0 ≡ err not_found)
        × ((finalize rt svc id actor w).0 ≡ err conflict)
        × (Sessions.is_stale moment s ≡ false)
  unfolding put_chunk finalize Sessions.is_stale
  finalizing_is_closed w s offset bytes moment there status owned = ground arith

  -- A `finalize` of a session whose chunks cannot be laid out, one that is missing say, raises
  -- `InvalidRequestError` and leaves the session in the status `finalizing`.
  pub finalize_incomplete :
      (w : World) (s : UploadSessionData)
      → get id w.sessions ≡ some s
      → s.id ≡ id
      → s.status ≡ active
      → leb s.expires_at (rt.clock w.ticks) ≡ false
      → check_owner svc.settings s.owner ≡ ok tt
      → layout w.blobs s ≡ err invalid_request
      → let w' = (finalize rt svc id actor w).1 in
        ((finalize rt svc id actor w).0 ≡ err invalid_request)
        × (get id w'.sessions
            ≡ some (record s { status = finalizing; updated_at = rt.clock (w.ticks + 1) }))
  unfolding finalize layout
  finalize_incomplete w s there own status alive owned missing =
      let current = record s { status = finalizing; updated_at = rt.clock (w.ticks + 1) } in
      let wc : World = record w {
        sessions = set s.id current w.sessions;
        ticks = w.ticks + 1 + 1;
      } in
      ground (
        arith,
        get-set_self s.id current w.sessions,
        audited_silent rt svc
            (upload_entry "upload.finalize" (some id) (owner_or id actor wc)
              (outcome_of invalid_request) (some (code invalid_request)))
            wc,
      )

  -- A client that finalizes an upload of its own, active and not expired, whose chunks cannot be
  -- laid out, the last one being missing say, has lost it: the call raises `InvalidRequestError`
  -- and leaves the session stored as `finalizing`; after it a `put_chunk` raises `NotFoundError`,
  -- whatever the chunk, another `finalize` raises `ConflictError`, and at no time is the session
  -- one that `cleanup_expired` takes.
  pub finalize_strands :
      (w : World) (s : UploadSessionData) (offset : ℤ) (bytes : List ℕ) (moment : ℕ)
      → get id w.sessions ≡ some s
      → s.id ≡ id
      → s.status ≡ active
      → leb s.expires_at (rt.clock w.ticks) ≡ false
      → check_owner svc.settings s.owner ≡ ok tt
      → layout w.blobs s ≡ err invalid_request
      → let w' = (finalize rt svc id actor w).1 in
        let kept = record s { status = finalizing; updated_at = rt.clock (w.ticks + 1) } in
        ((finalize rt svc id actor w).0 ≡ err invalid_request)
        × ((put_chunk rt svc id offset bytes actor w').0 ≡ err not_found)
        × ((finalize rt svc id actor w').0 ≡ err conflict)
        × (get id w'.sessions ≡ some kept)
        × (Sessions.is_stale moment kept ≡ false)
  finalize_strands w s offset bytes moment there own status alive owned missing =
      let w' = (finalize rt svc id actor w).1 in
      let current = record s { status = finalizing; updated_at = rt.clock (w.ticks + 1) } in
      let (raised, kept) = finalize_incomplete w s there own status alive owned missing in
      let (no_chunk, no_retry, unseen) =
        finalizing_is_closed w' current offset bytes moment kept refl owned in
      (raised, no_chunk, no_retry, kept, unseen)
