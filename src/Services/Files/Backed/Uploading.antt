-- ===== src/Services/Files/Backed/Uploading.antt =====
-- `create` and `create_stream` of `FileService` keep the files and the blobs together.
use rescs.Prelude.{◌≡◌, refl, none, some, Option, List, String, ℕ, arith, length, ap}
use rescs.Action.{Action, pure, ◌>>◌}
use rescs.Domain.{FileObjectData}
use rescs.Domain.Tags.{normalize_tags, validate_tags}
use rescs.World.{Runtime, World, blob_key_eq}
use rescs.Services.Common.{Service, LogEntry, audited}
use rescs.Services.Common.Laws.{audited_silent}
use rescs.Services.Triples.{Triple, Triple-bind, Triple-pure, Triple-weaken, Triple-on_error}
use rescs.Services.Files.Quiet.{
  utcnow-Quiet, Quiet-lift, audited-Quiet, resolve_expiry-Quiet, check_governance-Quiet,
}
use rescs.Services.Files.Shared.{success_entry, error_entry, enforce_quota}
use rescs.Services.Files.Create.{
  FileObjectCreate, new_file, publish, create_new, create_unless, create_body, create, replay,
}
use rescs.Services.Files.Backed.{
  IsFresh, claimed, printed, IsBacked, IsPending, IsNew, Holds, IsBacked-quiet,
}
use rescs.Services.Files.Backed.Steps.{IsPlaced}
use rescs.Services.Files.Backed.Parts.{
  Lasts, Quiet-Keeps, Quiet-Triple, Silent, Silent-Triple, IsPlaced-quiet, uuid4-Triple, put-Triple,
  insert_file-Triple, enforce_quota-Triple,
}
use rescs.Services.Files.Backed.Found.{HoldsAny, replay-Triple}

-- What is known of the result before the action starts.
pub Triple-given :
    {A E : Type 0} {P : World → Type 0} {m : Action World A} {Q : A → World → Type 0}
    {R : World → Type 0}
    → (E → Triple P m Q R)
    → Triple (λ w. P w × E) m Q R
Triple-given t = record { run = λ w h. (t h.1).run w h.0 }

module _ (rt : Runtime) (svc : Service) where
  audited-Silent : (e : LogEntry) → Silent (audited rt svc e)
  audited-Silent e = record { silent = λ w x. ground (arith, audited_silent rt svc e w) }

  pub audited-Triple :
      {P R : World → Type 0} (e : LogEntry) → Lasts P → Triple P (audited rt svc e) (λ _. P) R
  audited-Triple e lasts = Silent-Triple lasts (audited-Quiet rt svc e) (audited-Silent e)

  -- The end of an upload, with the metadata that was stored.
  finish-Triple :
      (f c : FileObjectData) (bytes : List ℕ)
      → c ≡ f
      → Triple
          (IsPlaced rt f bytes)
          (do
            enforce_quota rt svc f.owner c.id
            audited rt svc (success_entry "file.upload" c)
            pure c)
          (λ a w. IsPlaced rt a bytes w × (a ≡ f))
          (IsNew rt f.id)
  finish-Triple f c bytes same = rw same (
      Triple-bind (enforce_quota-Triple rt svc f.owner f bytes) (λ _.
        Triple-bind (audited-Triple (success_entry "file.upload" f) (IsPlaced-quiet rt f bytes))
          (λ _. Triple-pure f (λ w h. (h, refl)))))

  pub publish-Triple :
      (f : FileObjectData) (bytes : List ℕ)
      → f.storage_path ≡ f.id
      → printed rt (some bytes) ≡ claimed (some f)
      → Triple
          (IsPending rt f.id bytes)
          (publish rt svc f)
          (λ a w. IsPlaced rt a bytes w × (a ≡ f))
          (IsNew rt f.id)
  unfolding publish
  publish-Triple f bytes path says =
      Triple-bind (insert_file-Triple rt f bytes path says)
        (λ c. Triple-given (finish-Triple f c bytes))

  IsBacked-lasts : Lasts (IsBacked rt)
  IsBacked-lasts = IsBacked-quiet rt

  -- The metadata that the client gave, in a file that is not deleted.
  pub record IsOf (p : FileObjectCreate) (f : FileObjectData) : Type 0 where
    pub filename : f.filename ≡ p.filename
    pub mime_type : f.mime_type ≡ p.mime_type
    pub metadata : f.metadata ≡ p.metadata
    pub owner : f.owner ≡ p.owner
    pub undeleted : f.deleted_at ≡ none

  new_file-IsOf :
      (p : FileObjectCreate) (expires_at : Option ℕ) (now : ℕ) (id : String) (bytes : List ℕ)
      (f : FileObjectData)
      → f ≡ new_file rt p expires_at now id bytes
      → IsOf p f
  new_file-IsOf p expires_at now id bytes f same = record {
    filename = ap (λ g. g.filename) same;
    mime_type = ap (λ g. g.mime_type) same;
    metadata = ap (λ g. g.metadata) same;
    owner = ap (λ g. g.owner) same;
    undeleted = ap (λ g. g.deleted_at) same;
  }

  pub create_new-Triple :
      (p : FileObjectCreate) (bytes : List ℕ) (expires_at : Option ℕ)
      → IsFresh rt
      → Triple
          (IsBacked rt)
          (create_new rt svc p bytes expires_at)
          (λ a w. IsPlaced rt a bytes w × IsOf p a)
          (IsBacked rt)
  unfolding create_new
  create_new-Triple p bytes expires_at fresh =
      Triple-bind
        (Quiet-Triple IsBacked-lasts
          (check_governance-Quiet rt svc p.owner (length bytes) p.metadata))
        (λ _. Triple-bind (Quiet-Triple IsBacked-lasts (utcnow-Quiet rt)) (λ now.
          Triple-bind (uuid4-Triple rt fresh) (λ id.
            Triple-bind (put-Triple rt id bytes (IsBacked rt)) (λ _.
              Triple-weaken (λ w h. h)
                (λ a w h. (h.0, new_file-IsOf p expires_at now id bytes a h.1)) (λ w h. h.sound)
                (publish-Triple (new_file rt p expires_at now id bytes) bytes refl refl)))))

  create_unless-Triple :
      (p : FileObjectCreate) (bytes : List ℕ) (expires_at : Option ℕ) (o : Option FileObjectData)
      → IsFresh rt
      → Triple (HoldsAny rt o) (create_unless rt svc p bytes expires_at o) (Holds rt) (IsBacked rt)
  create_unless-Triple p bytes expires_at none fresh =
      Triple-weaken (λ w h. h) (λ a w h. record { sound = h.0.sound; there = h.0.there }) (λ w h. h)
        (create_new-Triple p bytes expires_at fresh)
  create_unless-Triple p bytes expires_at (some f) fresh = Triple-pure f (λ w h. h)

  create_body-Triple :
      (p : FileObjectCreate) (bytes : List ℕ)
      → IsFresh rt
      → Triple (IsBacked rt) (create_body rt svc p bytes) (Holds rt) (IsBacked rt)
  unfolding create_body
  create_body-Triple p bytes fresh =
      Triple-bind (Quiet-Triple IsBacked-lasts (Quiet-lift (validate_tags (normalize_tags p.tags))))
        (λ _.
          Triple-bind
            (Quiet-Triple IsBacked-lasts (resolve_expiry-Quiet rt svc p.expires_at p.ttl_seconds))
            (λ expires_at.
              Triple-bind (replay-Triple rt p.idempotency_key)
                (λ o. create_unless-Triple p bytes expires_at o fresh)))

  pub create-Triple :
      (p : FileObjectCreate) (bytes : List ℕ)
      → IsFresh rt
      → Triple (IsBacked rt) (create rt svc p bytes) (Holds rt) (IsBacked rt)
  unfolding create
  create-Triple p bytes fresh =
      Triple-on_error (λ e. audited rt svc (error_entry "file.upload" none p.owner e))
        (create_body-Triple p bytes fresh)
        (λ e w h.
          (Quiet-Keeps IsBacked-lasts
              (audited-Quiet rt svc (error_entry "file.upload" none p.owner e))).keeps
            w h)

  -- Without an idempotency key there is nothing to replay.
  no_replay-Triple :
      (key : Option String)
      → key ≡ none
      → Triple (IsBacked rt) (replay rt key) (λ o w. IsBacked rt w × (o ≡ none)) (IsBacked rt)
  unfolding replay
  no_replay-Triple key absent = rw absent (Triple-pure none (λ w h. (h, refl)))

  create_once-Triple :
      (p : FileObjectCreate) (bytes : List ℕ) (expires_at : Option ℕ) (o : Option FileObjectData)
      → IsFresh rt
      → o ≡ none
      → Triple
          (IsBacked rt)
          (create_unless rt svc p bytes expires_at o)
          (λ a w. IsPlaced rt a bytes w × IsOf p a)
          (IsBacked rt)
  create_once-Triple p bytes expires_at o fresh absent =
      rw absent (create_new-Triple p bytes expires_at fresh)

  pub create_keyless-Triple :
      (p : FileObjectCreate) (bytes : List ℕ)
      → IsFresh rt
      → p.idempotency_key ≡ none
      → Triple
          (IsBacked rt)
          (create rt svc p bytes)
          (λ a w. IsPlaced rt a bytes w × IsOf p a)
          (IsBacked rt)
  unfolding create create_body
  create_keyless-Triple p bytes fresh keyless =
      Triple-on_error (λ e. audited rt svc (error_entry "file.upload" none p.owner e))
        (Triple-bind
          (Quiet-Triple IsBacked-lasts (Quiet-lift (validate_tags (normalize_tags p.tags))))
          (λ _.
            Triple-bind
              (Quiet-Triple IsBacked-lasts (resolve_expiry-Quiet rt svc p.expires_at p.ttl_seconds))
              (λ expires_at.
                Triple-bind (no_replay-Triple p.idempotency_key keyless)
                  (λ o. Triple-given (create_once-Triple p bytes expires_at o fresh)))))
        (λ e w h.
          (Quiet-Keeps IsBacked-lasts
              (audited-Quiet rt svc (error_entry "file.upload" none p.owner e))).keeps
            w h)
