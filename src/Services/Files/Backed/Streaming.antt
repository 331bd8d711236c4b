-- ===== src/Services/Files/Backed/Streaming.antt =====
-- `create_stream` of `FileService`, which makes the id before it looks for an earlier upload.
use rescs.Prelude.{
  ◌≡◌, refl, none, some, Option, List, String, string_eq, ℕ, ◌≤◌, ◌≢◌, arith, length, is_some,
}
use rescs.Errors.{Error, conflict}
use rescs.Domain.{FileObjectData}
use rescs.Domain.Tags.{normalize_tags, validate_tags}
use rescs.Dict.{get}
use rescs.Memory.Store
use rescs.Memory.Files as Repo
use rescs.World.{Runtime, World, blob_key_eq, on_files}
use rescs.Services.Common.{Service}
use rescs.Services.Keeps.{Keeps, Keeps-bind, Keeps-pure, Keeps-raise, Keeps-if}
use rescs.Services.Triples.{
  Triple, Triple-bind, Triple-pure, Triple-weaken, Keeps-Triple, Triple-Keeps, Triple-on_error,
}
use rescs.Services.Files.Quiet.{
  utcnow-Quiet, expired_now-Quiet, Quiet-lift, audited-Quiet, resolve_expiry-Quiet,
  check_governance-Quiet,
}
use rescs.Services.Files.Shared.{purge_row, error_entry, size_limit}
use rescs.Services.Files.Create.{
  FileObjectCreate, new_file, replay_existing, replay, bounded, stream_new, stream_unless,
  stream_body, stream_failed, create_stream,
}
use rescs.Services.Files.Backed.{
  IsFresh, IsBacked, IsNew, IsBacked-quiet, IsPending-quiet, IsNew-quiet,
}
use rescs.Services.Files.Backed.Steps.{get-delete, swept, IsPending-swept, IsNew-swept}
use rescs.Services.Files.Backed.Parts.{Lasts, Quiet-Keeps, Quiet-Triple, uuid4-Triple, put-Triple}
use rescs.Services.Files.Backed.Found.{HoldsAny-sound, replay-Triple}
use rescs.Services.Files.Backed.Uploading.{publish-Triple}

module _ (rt : Runtime) where
  -- An id that no file has and that is not made again.
  record IsSpare (id : String) (w : World) : Type 0 where
    absent : get id w.files.items ≡ none
    ahead : (n : ℕ) → w.uuids ≤ n → rt.uuid n ≢ id

  IsSpare-quiet : (id : String) → Lasts (IsSpare id)
  IsSpare-quiet id v w q h = record {
    absent = rw q.files h.absent;
    ahead = λ n le. h.ahead n (omega (arith, q.uuids));
  }

  purge_row-IsSpare : (id : String) (f : FileObjectData) → Keeps (IsSpare id) (purge_row f)
  unfolding purge_row Store.delete on_files
  purge_row-IsSpare id f = record {
    keeps = λ w h. record {
      absent = ground (arith, h.absent, get-delete f.id id w.files);
      ahead = λ n le. h.ahead n (ground arith);
    };
  }

  find-IsSpare : (id key : String) → Keeps (IsSpare id) (Repo.find_by_idempotency_key key)
  unfolding Repo.find_by_idempotency_key on_files Store.find_by_idempotency_key
  find-IsSpare id key = record { keeps = λ w h. record { absent = h.absent; ahead = h.ahead } }

  replay_existing-IsSpare :
      (id : String) (o : Option FileObjectData) → Keeps (IsSpare id) (replay_existing rt o)
  unfolding replay_existing
  replay_existing-IsSpare id none = Keeps-pure none
  replay_existing-IsSpare id (some f) = Keeps-if (is_some f.deleted_at) (Keeps-raise conflict) (
      Keeps-bind (Quiet-Keeps (IsSpare-quiet id) (expired_now-Quiet rt f.expires_at)) (λ expired.
        Keeps-if expired (Keeps-bind (purge_row-IsSpare id f) (λ _. Keeps-pure none))
          (Keeps-pure (some f))))

  replay-IsSpare : (id : String) (key : Option String) → Keeps (IsSpare id) (replay rt key)
  unfolding replay
  replay-IsSpare id none = Keeps-pure none
  replay-IsSpare id (some key) = Keeps-bind (find-IsSpare id key) (replay_existing-IsSpare id)

  replay-IsBacked : (key : Option String) → Keeps (IsBacked rt) (replay rt key)
  replay-IsBacked key =
      Triple-Keeps (Triple-weaken (λ w h. h) (HoldsAny-sound rt) (λ w h. h) (replay-Triple rt key))

  replay-IsNew : (id : String) (key : Option String) → Keeps (IsNew rt id) (replay rt key)
  replay-IsNew id key = record {
    keeps = λ w h.
        let spare = (replay-IsSpare id key).keeps w record { absent = h.absent; ahead = h.ahead } in
        record {
          sound = (replay-IsBacked key).keeps w h.sound;
          absent = spare.absent;
          ahead = spare.ahead;
        };
  }

  -- What holds when the stream fails: without its blob, all is in order.
  abbrev IsSwept : String → World → Type 0
  IsSwept id w = IsBacked rt (swept id w)

module _ (rt : Runtime) (svc : Service) where
  stream_new-Triple :
      (p : FileObjectCreate) (chunks : List (List ℕ)) (id : String) (expires_at : Option ℕ)
      → Triple
          (IsNew rt id)
          (stream_new rt svc p chunks id expires_at)
          (λ _. IsBacked rt)
          (IsSwept rt id)
  unfolding stream_new
  stream_new-Triple p chunks id expires_at =
      Triple-bind
        (Triple-weaken (λ w h. h) (λ a w h. h) (IsNew-swept rt id)
          (Quiet-Triple (IsNew-quiet rt id)
            (Quiet-lift (bounded (size_limit svc.settings) 0 chunks))))
        (λ bytes. Triple-bind (put-Triple rt id bytes (IsSwept rt id)) (λ _.
          Triple-bind
            (Triple-weaken (λ w h. h) (λ a w h. h) (λ w h. (IsPending-swept rt id bytes w h).sound)
              (Quiet-Triple (IsPending-quiet rt id bytes)
                (check_governance-Quiet rt svc p.owner (length bytes) p.metadata)))
            (λ _.
              Triple-bind
                (Triple-weaken (λ w h. h) (λ a w h. h)
                  (λ w h. (IsPending-swept rt id bytes w h).sound)
                  (Quiet-Triple (IsPending-quiet rt id bytes) (utcnow-Quiet rt)))
                (λ now.
                  Triple-weaken (λ w h. h) (λ a w h. h.0.sound) (IsNew-swept rt id)
                    (publish-Triple rt svc (new_file rt p expires_at now id bytes) bytes refl
                      refl)))))

  stream_unless-Triple :
      (p : FileObjectCreate) (chunks : List (List ℕ)) (id : String) (expires_at : Option ℕ)
      (o : Option FileObjectData)
      → Triple
          (IsNew rt id)
          (stream_unless rt svc p chunks id expires_at o)
          (λ _. IsBacked rt)
          (IsSwept rt id)
  stream_unless-Triple p chunks id expires_at none = stream_new-Triple p chunks id expires_at
  stream_unless-Triple p chunks id expires_at (some f) = Triple-pure f (λ w h. h.sound)

  stream_body-Triple :
      (p : FileObjectCreate) (chunks : List (List ℕ)) (id : String)
      → Triple (IsNew rt id) (stream_body rt svc p chunks id) (λ _. IsBacked rt) (IsSwept rt id)
  unfolding stream_body
  stream_body-Triple p chunks id =
      Triple-bind
        (Triple-weaken (λ w h. h) (λ a w h. h) (IsNew-swept rt id)
          (Quiet-Triple (IsNew-quiet rt id) (Quiet-lift (validate_tags (normalize_tags p.tags)))))
        (λ _.
          Triple-bind
            (Triple-weaken (λ w h. h) (λ a w h. h) (IsNew-swept rt id)
              (Quiet-Triple (IsNew-quiet rt id)
                (resolve_expiry-Quiet rt svc p.expires_at p.ttl_seconds)))
            (λ expires_at.
              Triple-bind
                (Triple-weaken (λ w h. h) (λ a w h. h) (IsNew-swept rt id)
                  (Keeps-Triple (replay-IsNew rt id p.idempotency_key)))
                (λ o. stream_unless-Triple p chunks id expires_at o)))

  stream_failed-Keeps :
      (id owner : String) (e : Error) (w : World)
      → IsSwept rt id w
      → IsBacked rt (stream_failed rt svc id owner e w).1
  unfolding stream_failed
  stream_failed-Keeps id owner e w h =
      (Quiet-Keeps (IsBacked-quiet rt)
          (audited-Quiet rt svc (error_entry "file.upload" none owner e))).keeps
        (swept id w) h

  pub create_stream-Keeps :
      (p : FileObjectCreate) (chunks : List (List ℕ))
      → IsFresh rt
      → Keeps (IsBacked rt) (create_stream rt svc p chunks)
  unfolding create_stream
  create_stream-Keeps p chunks fresh = Triple-Keeps (
      Triple-bind (uuid4-Triple rt fresh) (λ id.
        Triple-on_error (stream_failed rt svc id p.owner) (stream_body-Triple p chunks id)
          (stream_failed-Keeps id p.owner)))
