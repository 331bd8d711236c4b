-- ===== src/Services/Uploads/Backed.antt =====
-- `UploadService`, over the files and their blobs: the calls that make neither, and what takes a blob
-- back.
pub mod Publishing
use rescs.Prelude.{
  String, string_eq, nat_eq, ◌==◌, ◌≡◌, refl, Bool, true, false, not, ◌&&◌, ◌||◌, Option, inl, inr,
  none, some, List, ℕ, ◌+◌, leb, ltb, length, arith, if◌then◌else◌,
}
use rescs.Prelude.Int.{lt_ℕ, clip}
use rescs.Errors.{
  Error, Result, ok, err, not_found, invalid_request, conflict, payload_too_large, quota_exceeded,
  code,
}
use rescs.Action.{Action, pure, raise, handle, lift, ◌>>=◌, ◌>>◌}
use rescs.Domain.{
  UploadSessionData, FileObjectData, Json, Status, active, expired, finalizing, finalized,
}
use rescs.Domain.Tags.{normalize_tags, validate_tags}
use rescs.Dict.{get}
use rescs.Memory.Store
use rescs.Memory.Store.Effects.{create_atomic}
use rescs.Memory.Sessions as Sessions
use rescs.Memory.Files as Files
use rescs.Memory.Files.{file_item}
use rescs.Memory.Blobs as Blobs
use rescs.World.{Runtime, World, object, blob_key_eq, on_files, utcnow}
use rescs.Services.Common.{
  Service, check_owner, check_metadata_size, exceeds, outcome_of, best_effort,
}
use rescs.Services.Keeps.{Keeps}
use rescs.Services.Triples.{
  Triple, Meets, Triple-bind, Triple-pure, Triple-raise, Triple-weaken, Triple-on_error,
  Triple-Keeps, Keeps-Triple,
}
use rescs.Services.Files.Quiet.{
  IsQuiet-refl, Quiet, Quiet-bind, Quiet-if, Quiet-lift, Quiet-pure, Quiet-raise, Quiet-raise_if,
  Quiet-try, Quiet-on_error, utcnow-Quiet, audited-Quiet, count-Quiet, bytes-Quiet,
}
use rescs.Services.Files.Backed.{
  IsFresh, claimed, printed, IsBacked, IsPending, IsNew, IsBacked-quiet, IsPending-quiet,
}
use rescs.Services.Files.Backed.Steps.{
  IsPlaced, removed-IsBacked, IsPending-swept, created-IsPlaced,
}
use rescs.Services.Files.Backed.Parts.{
  Quiet-Keeps, Quiet-Triple, IsPlaced-quiet, uuid4-Triple, put-Triple,
}
use rescs.Services.Files.Backed.Uploading.{Triple-given}
use rescs.Services.Uploads.Shared.{
  UploadCreate, upload_entry, create, create_body, min_chunk, max_chunk, max_file, given_tags,
  given_metadata, or_text, session_lifetime,
}
use rescs.Services.Uploads.Finalize.{
  layout, check_governance, reopen, over_quota, roll_back, file_of, is_mismatch, refuse_mismatch,
  create_file, close_session, publish, assemble, expire_at_finalize, gone_is_conflict, win,
  finalize, max_files, max_bytes,
}
use rescs.Services.Uploads.Finalize.Layout.{layout_lem}
use rescs.Services.Uploads.Quiet.{
  session_create-Quiet, session_get-Quiet, session_update-Quiet, unless_missing-update-Quiet,
  unless_missing-delete-Quiet, cleanup_chunks-Quiet, upload_error-Quiet, upload_ok-Quiet,
  uuid4-Quiet,
}

session_of : UploadCreate → ℕ → String → UploadSessionData
session_of p now id = record {
  id = id;
  owner = p.owner;
  filename = or_text p.filename "unnamed";
  content_type = or_text p.content_type "application/octet-stream";
  total_size = clip p.total_size;
  received_bytes = 0;
  chunk_size = clip p.chunk_size;
  status = active;
  checksum = p.checksum;
  created_at = now;
  updated_at = now;
  expires_at = now + session_lifetime;
  metadata = given_metadata p.metadata;
  tags = normalize_tags (given_tags p.tags);
}

gone_is_conflict-Quiet :
    (rt : Runtime) (svc : Service) (e : Error) → Quiet (gone_is_conflict rt svc e)
gone_is_conflict-Quiet rt svc e = record { quiet = λ w. ground arith }

module _ (rt : Runtime) (svc : Service) where
  pub create-Quiet : (p : UploadCreate) → Quiet (create rt svc p)
  unfolding create create_body session_of
  create-Quiet p =
      Quiet-on_error
        (λ e.
          audited-Quiet rt svc
            (upload_entry "upload.create" none p.owner (outcome_of e) (some (code e))))
        (Quiet-bind (Quiet-raise_if (lt_ℕ p.total_size 0) invalid_request) (λ _.
          Quiet-bind
            (Quiet-raise_if (lt_ℕ p.chunk_size min_chunk || ltb max_chunk (clip p.chunk_size))
              invalid_request)
            (λ _.
              Quiet-bind
                (Quiet-raise_if (exceeds (clip p.total_size) (max_file svc.settings))
                  payload_too_large)
                (λ _.
                  Quiet-bind (Quiet-lift (validate_tags (normalize_tags (given_tags p.tags)))) (λ _.
                    Quiet-bind (utcnow-Quiet rt) (λ now. Quiet-bind (uuid4-Quiet rt svc) (λ id.
                      Quiet-bind (session_create-Quiet (session_of p now id)) (λ created.
                        Quiet-bind (upload_ok-Quiet rt svc "upload.create" created.id p.owner)
                          (λ _. Quiet-pure created)))))))))

  reopen-Quiet : (s : UploadSessionData) → Quiet (reopen rt svc s)
  unfolding reopen
  reopen-Quiet s =
      Quiet-bind (utcnow-Quiet rt)
        (λ now. unless_missing-update-Quiet (record s { status = active; updated_at = now }))

  pub check_governance-Quiet :
      (owner : String) (size : ℕ) (metadata : Json)
      → Quiet (check_governance rt svc owner size metadata)
  unfolding check_governance
  check_governance-Quiet owner size metadata =
      Quiet-bind (Quiet-raise_if (exceeds size (max_file svc.settings)) payload_too_large) (λ _.
        Quiet-bind (Quiet-lift (check_metadata_size rt svc.settings metadata)) (λ _.
          Quiet-bind
            (Quiet-if (max_files svc.settings == 0) (Quiet-pure tt) (
              Quiet-bind (count-Quiet rt owner)
                (λ count. Quiet-raise_if (leb (max_files svc.settings) count) quota_exceeded)))
            (λ _. Quiet-if (max_bytes svc.settings == 0) (Quiet-pure tt) (
              Quiet-bind (bytes-Quiet rt owner) (λ used.
                Quiet-raise_if (ltb (max_bytes svc.settings) (used + size)) quota_exceeded)))))

  pub over_quota-Quiet : (owner : String) → Quiet (over_quota rt svc owner)
  unfolding over_quota
  over_quota-Quiet owner =
      Quiet-bind
        (Quiet-if (max_files svc.settings == 0) (Quiet-pure false) (
          Quiet-bind (count-Quiet rt owner)
            (λ count. Quiet-pure (ltb (max_files svc.settings) count))))
        (λ files. Quiet-if (files || max_bytes svc.settings == 0) (Quiet-pure files) (
          Quiet-bind (bytes-Quiet rt owner)
            (λ used. Quiet-pure (ltb (max_bytes svc.settings) used))))

  pub close_session-Quiet : (s : UploadSessionData) → Quiet (close_session rt svc s)
  unfolding close_session
  close_session-Quiet s = Quiet-bind (utcnow-Quiet rt) (λ now.
      Quiet-bind
        (unless_missing-update-Quiet
          (record s { status = finalized; received_bytes = s.total_size; updated_at = now }))
        (λ _.
          Quiet-bind (cleanup_chunks-Quiet s.id s.total_size)
            (λ _. unless_missing-delete-Quiet s.id)))

  set_status-Quiet : (s : UploadSessionData) (new : Status) → Quiet (Sessions.set_status rt s new)
  unfolding Sessions.set_status utcnow
  set_status-Quiet s new = record {
    quiet = λ w. record { files = refl; blobs = λ id. refl; uuids = omega arith };
  }

  pub win-Quiet : (id : String) → Quiet (win rt svc id)
  unfolding win Sessions.compare_and_set_status
  win-Quiet id =
      Quiet-try
        (Quiet-bind (session_get-Quiet id) (λ s.
          Quiet-if (Sessions.status_beq s.status active) (set_status-Quiet s finalizing)
            (Quiet-pure false)))
        (λ b. Quiet-pure b) (gone_is_conflict-Quiet rt svc)

  pub expire_at_finalize-Quiet :
      (b : Bool) (s : UploadSessionData) → Quiet (expire_at_finalize rt svc b s)
  unfolding expire_at_finalize
  expire_at_finalize-Quiet false s = Quiet-pure tt
  expire_at_finalize-Quiet true s =
      Quiet-bind (unless_missing-update-Quiet (record s { status = expired }))
        (λ _. Quiet-raise not_found)

  pub reopened-Triple :
      {A : Type 0} (s : UploadSessionData) (e : Error) (Q : A → World → Type 0)
      → Triple (IsBacked rt) (reopen rt svc s >> raise {A = A} e) Q (IsBacked rt)
  reopened-Triple s e Q =
      Triple-bind (Quiet-Triple (IsBacked-quiet rt) (reopen-Quiet s))
        (λ _. Triple-raise e (λ w h. h))

  -- The blob of an id without a row goes, the session is reopened, and an error is raised.
  pub withdrawn-Triple :
      {A : Type 0} (s : UploadSessionData) (id : String) (bytes : List ℕ) (e : Error)
      (Q : A → World → Type 0)
      → Triple
          (IsPending rt id bytes)
          (Blobs.delete (object id) >> reopen rt svc s >> raise {A = A} e)
          Q
          (IsBacked rt)
  unfolding Blobs.delete
  withdrawn-Triple s id bytes e Q = record {
    run = λ w h. (reopened-Triple s e Q).run _ (IsPending-swept rt id bytes w h).sound;
  }
