-- ===== src/Services/Uploads/Backed/Publishing.antt =====
-- `finalize` of `UploadService` keeps the files and the blobs together.
use rescs.Prelude.{
  String, string_eq, nat_eq, ◌≡◌, ◌≢◌, refl, ap, Bool, true, false, not, inl, inr, none, some, List,
  ℕ, leb, length, arith,
}
use rescs.Errors.{Error, Result-cases, err, conflict, quota_exceeded, invalid_request}
use rescs.Action.{Action, pure, raise, ◌>>=◌, ◌>>◌}
use rescs.Domain.{UploadSessionData, FileObjectData, active}
use rescs.Memory.Store.Effects.{create_atomic}
use rescs.Memory.Sessions as Sessions
use rescs.Memory.Files as Files
use rescs.Memory.Files.{file_item}
use rescs.Memory.Blobs as Blobs
use rescs.World.{Runtime, World, object, blob_key_eq, on_files, utcnow}
use rescs.Services.Common.{Service, check_owner}
use rescs.Services.Keeps.{Keeps}
use rescs.Services.Triples.{
  Triple, Meets, Triple-bind, Triple-pure, Triple-weaken, Triple-on_error, Triple-Keeps,
  Triple-handle,
}
use rescs.Services.Files.Quiet.{Quiet, Quiet-lift, Quiet-raise_if, utcnow-Quiet}
use rescs.Services.Files.Backed.{
  IsFresh, claimed, printed, IsBacked, IsPending, IsBacked-quiet, IsPending-quiet,
}
use rescs.Services.Files.Backed.Steps.{IsPlaced, removed-IsBacked, created-IsPlaced}
use rescs.Services.Files.Backed.Parts.{
  Lasts, Silent-Triple, Quiet-Keeps, Quiet-Triple, IsPlaced-quiet, uuid4-Triple, put-Triple,
}
use rescs.Services.Files.Backed.Uploading.{Triple-given}
use rescs.Services.Uploads.Finalize.{
  layout, over_quota, close_session, reopen, roll_back, file_of, is_mismatch, refuse_mismatch,
  create_file, publish, assemble, finalize,
}
use rescs.Services.Uploads.Finalize.Layout.{layout_lem}
use rescs.Services.Uploads.Shared.{upload_ok, upload_error}
use rescs.Services.Uploads.Quiet.{session_get-Quiet, upload_error-Quiet, upload_ok-Quiet}
use rescs.Services.Uploads.Backed.{
  check_governance-Quiet, over_quota-Quiet, close_session-Quiet, win-Quiet,
  expire_at_finalize-Quiet, reopened-Triple, withdrawn-Triple,
}

module _ (rt : Runtime) (svc : Service) where
  refuse_mismatch-Triple :
      (b : Bool) (s : UploadSessionData) (id : String) (bytes : List ℕ)
      → Triple
          (IsPending rt id bytes)
          (refuse_mismatch rt svc b s id)
          (λ _. IsPending rt id bytes)
          (IsBacked rt)
  unfolding Blobs.delete reopen
  refuse_mismatch-Triple false s id bytes = Triple-pure tt (λ w h. h)
  refuse_mismatch-Triple true s id bytes =
      withdrawn-Triple rt svc s id bytes invalid_request (λ _. IsPending rt id bytes)

  stored_or_not :
      (f : FileObjectData) (bytes : List ℕ) (w : World)
      → f.storage_path ≡ f.id
      → printed rt (some bytes) ≡ claimed (some f)
      → IsPending rt f.id bytes w
      → Meets (λ c v. IsPlaced rt f bytes v × (c ≡ f)) (IsPending rt f.id bytes) (Files.create f w)
  unfolding Files.create on_files
  stored_or_not f bytes w path says h = elim (create_atomic f none w.files) [
    | inl done ↦ ground (arith, done, created-IsPlaced rt f bytes w path says h done)
    | inr failed ↦ rw failed h
  ]

  create_file-Triple :
      (s : UploadSessionData) (f : FileObjectData) (bytes : List ℕ)
      → f.storage_path ≡ f.id
      → printed rt (some bytes) ≡ claimed (some f)
      → Triple
          (IsPending rt f.id bytes)
          (create_file rt svc s f)
          (λ c v. IsPlaced rt f bytes v × (c ≡ f))
          (IsBacked rt)
  unfolding create_file
  create_file-Triple s f bytes path says =
      Triple-handle pure (λ e. Blobs.delete (object f.id) >> reopen rt svc s >> raise e)
        (record { run = λ w h. stored_or_not f bytes w path says h })
        (λ c. Triple-pure c (λ w h. h))
        (λ e. withdrawn-Triple rt svc s f.id bytes e (λ c v. IsPlaced rt f bytes v × (c ≡ f)))

  roll_back-Triple :
      (over : Bool) (s : UploadSessionData) (f : FileObjectData) (bytes : List ℕ)
      → Triple
          (IsPlaced rt f bytes)
          (roll_back rt svc over s f.id)
          (λ _. IsPlaced rt f bytes)
          (IsBacked rt)
  unfolding Files.delete on_files Blobs.delete
  roll_back-Triple false s f bytes = Triple-pure tt (λ w h. h)
  roll_back-Triple true s f bytes = record {
    run = λ w h.
        (reopened-Triple rt svc s quota_exceeded (λ _. IsPlaced rt f bytes)).run _
          (removed-IsBacked rt f.id w h.sound);
  }

  IsBacked-lasts : Lasts (IsBacked rt)
  IsBacked-lasts = IsBacked-quiet rt

  IsPlaced-Triple :
      {A : Type 0} {m : Action World A} (f : FileObjectData) (bytes : List ℕ)
      → Quiet m
      → Triple (IsPlaced rt f bytes) m (λ _. IsPlaced rt f bytes) (IsBacked rt)
  IsPlaced-Triple f bytes q =
      Triple-weaken (λ w h. h) (λ a w h. h) (λ w h. h.sound)
        (Quiet-Triple (IsPlaced-quiet rt f bytes) q)

  IsPending-Triple :
      {A : Type 0} {m : Action World A} (id : String) (bytes : List ℕ)
      → Quiet m
      → ((w : World) (e : Error) → (m w).0 ≢ err e)
      → Triple (IsPending rt id bytes) m (λ _. IsPending rt id bytes) (IsBacked rt)
  IsPending-Triple id bytes q never =
      Silent-Triple (IsPending-quiet rt id bytes) q (record { silent = never })

  -- What follows the metadata, with what was stored.
  settle-Triple :
      (s : UploadSessionData) (f c : FileObjectData) (bytes : List ℕ)
      → Triple
          (IsPlaced rt f bytes)
          (do
            over ← over_quota rt svc s.owner
            roll_back rt svc over s f.id
            close_session rt svc s
            upload_ok rt svc "upload.finalize" s.id s.owner
            pure c)
          (λ _. IsBacked rt)
          (IsBacked rt)
  settle-Triple s f c bytes =
      Triple-bind (IsPlaced-Triple f bytes (over_quota-Quiet rt svc s.owner)) (λ over.
        Triple-bind (roll_back-Triple over s f bytes) (λ _.
          Triple-bind (IsPlaced-Triple f bytes (close_session-Quiet rt svc s)) (λ _.
            Triple-bind
              (IsPlaced-Triple f bytes (upload_ok-Quiet rt svc "upload.finalize" s.id s.owner))
              (λ _. Triple-pure c (λ w h. h.sound)))))

  publish-Triple :
      (s : UploadSessionData) (bytes : List ℕ)
      → IsFresh rt
      → length bytes ≡ s.total_size
      → Triple (IsBacked rt) (publish rt svc s bytes) (λ _. IsBacked rt) (IsBacked rt)
  unfolding publish utcnow
  publish-Triple s bytes fresh full = Triple-bind (uuid4-Triple rt fresh) (λ id.
      Triple-bind (put-Triple rt id bytes (IsBacked rt)) (λ _.
        Triple-bind (refuse_mismatch-Triple (is_mismatch rt svc s.checksum bytes) s id bytes) (λ _.
          Triple-bind (IsPending-Triple id bytes (utcnow-Quiet rt) (λ w e. ground arith)) (λ now.
            let f = file_of rt svc s id bytes now in
            Triple-bind
              (create_file-Triple s f bytes refl (ap (λ n. some (rt.sha256 bytes, n)) full))
              (λ c.
                Triple-weaken (λ w h. h.0) (λ a w h. h) (λ w h. h) (settle-Triple s f c bytes))))))

  -- The chunks that are laid out have the size of the session.
  laid_out-Triple :
      (s : UploadSessionData)
      → Triple
          (IsBacked rt)
          (λ w. (layout w.blobs s, w))
          (λ bytes w. IsBacked rt w × (length bytes ≡ s.total_size))
          (IsBacked rt)
  laid_out-Triple s = record {
    run = λ w h. elim (Result-cases (layout w.blobs s)) [
      | inl (bytes, laid) ↦ rw laid (h, (layout_lem w.blobs s bytes laid).0)
      | inr (e, failed) ↦ rw failed h
    ];
  }

  assemble-Triple :
      (s : UploadSessionData)
      → IsFresh rt
      → Triple (IsBacked rt) (assemble rt svc s) (λ _. IsBacked rt) (IsBacked rt)
  unfolding assemble
  assemble-Triple s fresh = Triple-bind (laid_out-Triple s) (λ bytes. Triple-given (λ full.
      Triple-bind
        (Quiet-Triple IsBacked-lasts
          (check_governance-Quiet rt svc s.owner s.total_size s.metadata))
        (λ _. publish-Triple s bytes fresh full)))

  quietly :
      {A : Type 0} {m : Action World A}
      → Quiet m
      → Triple (IsBacked rt) m (λ _. IsBacked rt) (IsBacked rt)
  quietly q = Quiet-Triple IsBacked-lasts q

  pub finalize-Keeps :
      (id actor : String) → IsFresh rt → Keeps (IsBacked rt) (finalize rt svc id actor)
  unfolding finalize
  finalize-Keeps id actor fresh = Triple-Keeps (
      Triple-on_error (upload_error rt svc "upload.finalize" id actor)
        (Triple-bind (quietly (session_get-Quiet id)) (λ s.
          Triple-bind (quietly (Quiet-lift (check_owner svc.settings s.owner))) (λ _.
            Triple-bind
              (quietly (Quiet-raise_if (not (Sessions.status_beq s.status active)) conflict))
              (λ _. Triple-bind (quietly (utcnow-Quiet rt)) (λ now.
                Triple-bind (quietly (expire_at_finalize-Quiet rt svc (leb s.expires_at now) s))
                  (λ _. Triple-bind (quietly (win-Quiet rt svc id)) (λ won.
                    Triple-bind (quietly (session_get-Quiet id)) (λ current.
                      Triple-bind (quietly (Quiet-raise_if (not won) conflict))
                        (λ _. assemble-Triple current fresh)))))))))
        (λ e w h.
          (Quiet-Keeps IsBacked-lasts
              (upload_error-Quiet rt svc "upload.finalize" id actor e)).keeps
            w h))
