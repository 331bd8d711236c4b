-- ===== src/Services/Uploads/Quiet.antt =====
-- The operations of `UploadService` that touch sessions and chunks leave the files and their blobs
-- alone.
use Prim.Native.Nat.{max}
use rescs.Prelude.{
  String, string_eq, nat_eq, ◌==◌, ◌≡◌, refl, not, ◌&&◌, ◌||◌, Option-cases, inl, inr, none, some,
  List, [], ◌∷◌, ℕ, zero, suc, ◌+◌, leb, ltb, length, arith,
}
use rescs.Prelude.Int.{ℤ, lt_ℕ, clip}
use rescs.Errors.{Error, ok, not_found, invalid_request, code}
use rescs.Action.{Action}
use rescs.Dict.{Dict, get, pop}
use rescs.Dict.Laws.{get-set, get-pop}
use rescs.Domain.{UploadSessionData, active, expired}
use rescs.Memory.Sessions as Sessions
use rescs.Memory.Blobs as Blobs
use rescs.World.{Runtime, World, BlobKey, object, chunk, blob_key_eq, uuid4}
use rescs.Services.Common.{Service, check_owner, outcome_of}
use rescs.Services.Files.Quiet.{
  IsQuiet-refl, Quiet, Quiet-bind, Quiet-if, Quiet-lift, Quiet-pure, Quiet-raise, Quiet-raise_if,
  utcnow-Quiet, audited-Quiet, Quiet-try, Quiet-on_error,
}
use rescs.Services.Uploads.Shared.{
  upload_entry, upload_error, upload_ok, unless_missing, pass_not_found, owner_or, get_active,
  expire, min_chunk, max_chunk, max_file, given_tags, UploadCreate,
}
use rescs.Services.Uploads.Shared as Shared
use rescs.Services.Uploads.Chunks.{check_chunk, store_chunk, write_chunk, put_chunk, received}
use rescs.Services.Uploads.Cleanup.{
  clean_from, advance_probe, cleanup_chunks, remove_stale, remove_all, cancel, cleanup_expired,
  skip_missing,
}

-- The repository of sessions.
pub session_create-Quiet : (s : UploadSessionData) → Quiet (Sessions.create s)
unfolding Sessions.create
session_create-Quiet s = record { quiet = λ w. ground arith }

pub session_get-Quiet : (id : String) → Quiet (Sessions.get id)
unfolding Sessions.get
session_get-Quiet id = record { quiet = λ w. ground arith }

pub session_update-Quiet : (s : UploadSessionData) → Quiet (Sessions.update s)
unfolding Sessions.update
session_update-Quiet s = record { quiet = λ w. ground arith }

session_delete-Quiet : (id : String) → Quiet (Sessions.delete id)
unfolding Sessions.delete
session_delete-Quiet id = record { quiet = λ w. ground arith }

pass_not_found-Quiet : (e : Error) → Quiet (pass_not_found e)
pass_not_found-Quiet e = record { quiet = λ w. ground arith }

unless_missing-Quiet : {A : Type 0} {m : Action World A} → Quiet m → Quiet (unless_missing m)
unless_missing-Quiet q = Quiet-try q (λ _. Quiet-pure tt) pass_not_found-Quiet

pub unless_missing-update-Quiet :
    (s : UploadSessionData) → Quiet (unless_missing (Sessions.update s))
unless_missing-update-Quiet s = unless_missing-Quiet (session_update-Quiet s)

pub unless_missing-delete-Quiet : (id : String) → Quiet (unless_missing (Sessions.delete id))
unless_missing-delete-Quiet id = unless_missing-Quiet (session_delete-Quiet id)

-- Chunks are no objects.
chunk_put-Quiet :
    (id : String) (offset : ℕ) (bytes : List ℕ) → Quiet (Blobs.put (chunk id offset) bytes)
unfolding Blobs.put
chunk_put-Quiet id offset bytes = record {
  quiet = λ w. record {
    files = refl;
    blobs = λ j. get-set (chunk id offset) (object j) bytes w.blobs;
    uuids = omega arith;
  };
}

get-clean_from :
    (fuel : ℕ) (id : String) (total offset seen_empty : ℕ) (blobs : Dict BlobKey (List ℕ))
    (j : String)
    → get (object j) (clean_from fuel id total offset seen_empty blobs) ≡ get (object j) blobs
unfolding clean_from
get-clean_from zero id total offset seen blobs j = refl
get-clean_from (suc fuel) id total offset seen blobs j =
    elim (Option-cases (get (chunk id offset) blobs)) [
      | inr (bytes, found) ↦ ground (
        arith,
        found,
        get-clean_from fuel id total (offset + max (length bytes) 1) 0 (pop (chunk id offset) blobs)
            j,
        get-pop (chunk id offset) (object j) blobs,
      )
      | inl absent ↦ elim (Option-cases (advance_probe id offset blobs)) [
        | inl last ↦ ground (arith, absent, last)
        | inr (next, probed) ↦
            ground (arith, absent, probed, get-clean_from fuel id total next (seen + 1) blobs j)
      ]
    ]

pub cleanup_chunks-Quiet : (id : String) (total : ℕ) → Quiet (cleanup_chunks id total)
unfolding cleanup_chunks
cleanup_chunks-Quiet id total = record {
  quiet = λ w. record {
    files = refl;
    blobs = get-clean_from (suc (suc total)) id total 0 0 w.blobs;
    uuids = omega arith;
  };
}

skip_missing-Quiet : (e : Error) → Quiet (skip_missing e)
skip_missing-Quiet e = record { quiet = λ w. ground arith }

module _ (rt : Runtime) (svc : Service) where
  pub upload_error-Quiet :
      (operation id actor : String) (e : Error) → Quiet (upload_error rt svc operation id actor e)
  upload_error-Quiet operation id actor e = record {
    quiet = λ w.
        (audited-Quiet rt svc (
            upload_entry operation (some id) (owner_or id actor w) (outcome_of e)
              (some (code e)))).quiet
          w;
  }

  pub upload_ok-Quiet : (operation id owner : String) → Quiet (upload_ok rt svc operation id owner)
  upload_ok-Quiet operation id owner =
      audited-Quiet rt svc (upload_entry operation (some id) owner "ok" none)

  pub uuid4-Quiet : Quiet (uuid4 rt)
  unfolding uuid4
  uuid4-Quiet = record { quiet = λ w. ground arith }

  expire-Quiet : (s : UploadSessionData) → Quiet (expire rt svc s)
  unfolding expire
  expire-Quiet s = Quiet-bind (utcnow-Quiet rt) (λ again.
      Quiet-bind
        (Quiet-if (leb s.expires_at again)
          (unless_missing-update-Quiet (record s { status = expired })) (Quiet-pure tt))
        (λ _. Quiet-raise not_found))

  get-Quiet : (id : String) → Quiet (Shared.get rt svc id)
  unfolding Shared.get get_active
  get-Quiet id = Quiet-bind (session_get-Quiet id) (λ s.
      Quiet-if (Sessions.status_beq s.status active)
        (Quiet-bind (utcnow-Quiet rt)
          (λ now. Quiet-if (leb s.expires_at now) (expire-Quiet s) (Quiet-pure s)))
        (Quiet-raise not_found))

  check_chunk-Quiet :
      (s : UploadSessionData) (offset : ℤ) (bytes : List ℕ) → Quiet (check_chunk s offset bytes)
  unfolding check_chunk
  check_chunk-Quiet s offset bytes =
      Quiet-bind (Quiet-raise_if (length bytes == 0) invalid_request) (λ _.
        Quiet-bind
          (Quiet-raise_if (lt_ℕ offset 0 || ltb s.total_size (clip offset + length bytes))
            invalid_request)
          (λ _.
            Quiet-bind
              (Quiet-raise_if
                (not (clip offset + length bytes == s.total_size)
                  && not (length bytes == s.chunk_size))
                invalid_request)
              (λ _. Quiet-raise_if (ltb max_chunk (length bytes)) invalid_request)))

  store_chunk-Quiet :
      (s : UploadSessionData) (offset : ℕ) (bytes : List ℕ)
      → Quiet (store_chunk rt svc s offset bytes)
  unfolding store_chunk
  store_chunk-Quiet s offset bytes = Quiet-bind (chunk_put-Quiet s.id offset bytes) (λ _.
      Quiet-bind {m = λ w. (ok (received w.blobs s), w)} (record { quiet = IsQuiet-refl })
        (λ count. Quiet-bind (utcnow-Quiet rt) (λ now.
          Quiet-bind (session_update-Quiet (record s { received_bytes = count; updated_at = now }))
            (λ updated.
              Quiet-bind (upload_ok-Quiet "upload.chunk" s.id s.owner) (λ _. Quiet-pure updated)))))

  write_chunk-Quiet :
      (s : UploadSessionData) (offset : ℕ) (bytes : List ℕ)
      → Quiet (write_chunk rt svc s offset bytes)
  unfolding write_chunk
  write_chunk-Quiet s offset bytes = record {
    quiet = λ w. elim (Option-cases (get (chunk s.id offset) w.blobs)) [
      | inl absent ↦
          let same : write_chunk rt svc s offset bytes w ≡ store_chunk rt svc s offset bytes w =
            ground (arith, absent) in
          rw same ((store_chunk-Quiet s offset bytes).quiet w)
      | inr (existing, found) ↦
          let same : (write_chunk rt svc s offset bytes w).1 ≡ w = ground (arith, found) in
          rw same (IsQuiet-refl w)
    ];
  }

  pub put_chunk-Quiet :
      (id : String) (offset : ℤ) (bytes : List ℕ) (actor : String)
      → Quiet (put_chunk rt svc id offset bytes actor)
  unfolding put_chunk
  put_chunk-Quiet id offset bytes actor =
      Quiet-on_error (upload_error-Quiet "upload.chunk" id actor) (
        Quiet-bind (get-Quiet id) (λ s.
          Quiet-bind (Quiet-lift (check_owner svc.settings s.owner)) (λ _.
            Quiet-bind (check_chunk-Quiet s offset bytes)
              (λ _. write_chunk-Quiet s (clip offset) bytes))))

  pub cancel-Quiet : (id actor : String) → Quiet (cancel rt svc id actor)
  unfolding cancel
  cancel-Quiet id actor =
      Quiet-on_error
        (λ e.
          audited-Quiet rt svc
            (upload_entry "upload.cancel" (some id) actor (outcome_of e) (some (code e))))
        (Quiet-bind (session_get-Quiet id) (λ s.
          Quiet-bind (Quiet-lift (check_owner svc.settings s.owner)) (λ _.
            Quiet-bind (cleanup_chunks-Quiet s.id s.total_size) (λ _.
              Quiet-bind (unless_missing-delete-Quiet s.id)
                (λ _. upload_ok-Quiet "upload.cancel" id s.owner)))))

  remove_stale-Quiet : (s : UploadSessionData) → Quiet (remove_stale rt svc s)
  unfolding remove_stale
  remove_stale-Quiet s =
      Quiet-bind (cleanup_chunks-Quiet s.id s.total_size)
        (λ _. Quiet-try (session_delete-Quiet s.id) (λ _. Quiet-pure 1) skip_missing-Quiet)

  remove_all-Quiet : (ss : List UploadSessionData) → Quiet (remove_all rt svc ss)
  unfolding remove_all
  remove_all-Quiet [] = Quiet-pure 0
  remove_all-Quiet (s ∷ ss) =
      Quiet-bind (remove_stale-Quiet s)
        (λ one. Quiet-bind (remove_all-Quiet ss) (λ more. Quiet-pure (one + more)))

  pub cleanup_expired-Quiet :
      (actor : String) (limit : ℕ) → Quiet (cleanup_expired rt svc actor limit)
  unfolding cleanup_expired Sessions.list_expired
  cleanup_expired-Quiet actor limit = Quiet-bind (utcnow-Quiet rt) (λ now.
      Quiet-bind {m = Sessions.list_expired now limit} (record { quiet = IsQuiet-refl })
        (λ stale. Quiet-bind (remove_all-Quiet stale) (λ count.
          Quiet-bind (audited-Quiet rt svc (upload_entry "upload.cleanup" none actor "ok" none))
            (λ _. Quiet-pure count))))
