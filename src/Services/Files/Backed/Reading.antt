-- ===== src/Services/Files/Backed/Reading.antt =====
-- What `download` and `download_stream` return of the files that the object store backs.
use rescs.Prelude.{
  true, false, Bool, ◌≡◌, none, some, Option-cases, inl, inr, List, String, string_eq, ℕ, ◌+◌,
  arith, length, ==-refl,
}
use rescs.Errors.{ok, err, Result}
use rescs.Domain.{FileObjectData, file_is_expired}
use rescs.Dict.{get}
use rescs.Memory.Store
use rescs.Memory.Files as Repo
use rescs.Memory.Files.{live}
use rescs.Memory.Blobs as Blobs
use rescs.World.{Runtime, World, object, blob_key_eq, on_files, utcnow}
use rescs.Services.Common.{Service}
use rescs.Services.Common.Laws.{audited_silent}
use rescs.Services.Triples.{Meets}
use rescs.Services.Files.Shared.{success_entry}
use rescs.Services.Files.Create.{FileObjectCreate, create}
use rescs.Services.Files.Download.{read_file, download, download_stream, consume}
use rescs.Services.Files.Backed.{IsFresh, IsBacked}
use rescs.Services.Files.Backed.Steps.{IsPlaced}
use rescs.Services.Files.Backed.Uploading.{create_keyless-Triple, IsOf}

module _ (rt : Runtime) (svc : Service) where
  get-live :
      (id : String) (w : World) (f : FileObjectData)
      → get id w.files.items ≡ some f
      → live f (rt.clock w.ticks) ≡ true
      → Repo.get rt id w ≡ (ok f, record w { ticks = w.ticks + 1 })
  unfolding Repo.get Store.fetch on_files utcnow
  get-live id w f there alive = ground (arith, there, alive)

  read_stored :
      (verify : Bool) (f : FileObjectData) (bytes : List ℕ) (w : World)
      → get (object f.storage_path) w.blobs ≡ some bytes
      → rt.sha256 bytes ≡ f.sha256
      → ((read_file rt svc verify f w).0 ≡ ok (f, bytes))
        × ((read_file rt svc verify f w).1.files ≡ w.files)
        × ((read_file rt svc verify f w).1.blobs ≡ w.blobs)
  unfolding read_file Blobs.get
  read_stored verify f bytes w stored same = ground (
    arith,
    stored,
    same,
    ==-refl f.sha256,
    audited_silent rt svc (success_entry "file.download" f) w,
  )

  download_stored :
      (id : String) (verify : Bool) (w : World) (f : FileObjectData) (bytes : List ℕ)
      → get id w.files.items ≡ some f
      → live f (rt.clock w.ticks) ≡ true
      → get (object f.storage_path) w.blobs ≡ some bytes
      → rt.sha256 bytes ≡ f.sha256
      → ((download rt svc id verify w).0 ≡ ok (f, bytes))
        × ((download_stream rt svc id w).0 ≡ ok f)
        × (consume rt svc f (download_stream rt svc id w).1 ≡ (bytes, ok tt))
  unfolding download download_stream consume
  download_stored id verify w f bytes there alive stored same = rw (get-live id w f there alive) (
      ground (
        arith,
        stored,
        same,
        ==-refl f.sha256,
        read_stored verify f bytes (record w { ticks = w.ticks + 1 }) stored same,
        audited_silent rt svc (success_entry "file.download" f) (record w { ticks = w.ticks + 1 }),
      ))

  -- Where each file has a blob under its id with the digest and the size of its metadata, a file that
  -- is neither deleted nor expired can be downloaded: `download`, with or without the check of the
  -- digest, returns the metadata and bytes of that digest and that size, and the iterator of
  -- `download_stream` yields the same bytes and ends without an error.
  pub download-IsBacked :
      (id : String) (verify : Bool) (w : World) (f : FileObjectData)
      → IsBacked rt w
      → get id w.files.items ≡ some f
      → live f (rt.clock w.ticks) ≡ true
      → (bytes : List ℕ) × ((download rt svc id verify w).0 ≡ ok (f, bytes))
        × ((download_stream rt svc id w).0 ≡ ok f)
        × (consume rt svc f (download_stream rt svc id w).1 ≡ (bytes, ok tt))
        × (rt.sha256 bytes ≡ f.sha256)
        × (length bytes ≡ f.size)
  download-IsBacked id verify w f h there alive = elim (Option-cases (get (object id) w.blobs)) [
    | inl absent ↦ ground (arith, h.backed id, absent, there)
    | inr (bytes, stored) ↦
        let says : (rt.sha256 bytes ≡ f.sha256) × (length bytes ≡ f.size) =
          ground (arith, h.backed id, stored, there) in
        let (whole, named, read) =
          download_stored id verify w f bytes there alive (rw (h.own_path id f there) stored)
            says.0 in
        (bytes, whole, named, read, says.0, says.1)
  ]

  placed_live :
      (p : FileObjectCreate) (c : FileObjectData) (now : ℕ)
      → IsOf rt svc p c
      → file_is_expired c now ≡ false
      → live c now ≡ true
  unfolding live
  placed_live p c now h fresh = ground (arith, h.undeleted, fresh)

  placed_reads :
      (p : FileObjectCreate) (c : FileObjectData) (bytes : List ℕ) (w : World)
      → IsPlaced rt c bytes w
      → IsOf rt svc p c
      → file_is_expired c (rt.clock w.ticks) ≡ false
      → ((download rt svc c.id true w).0 ≡ ok (c, bytes))
        × (c.filename ≡ p.filename)
        × (c.mime_type ≡ p.mime_type)
        × (c.metadata ≡ p.metadata)
        × (c.owner ≡ p.owner)
  placed_reads p c bytes w h h' alive = (
    (download_stored c.id true w c bytes h.there (placed_live p c (rt.clock w.ticks) h' alive)
        (rw (h.sound.own_path c.id c h.there) h.stored)
        (ground (arith, h.sound.backed c.id, h.there, h.stored))).0,
    h'.filename,
    h'.mime_type,
    h'.metadata,
    h'.owner,
  )

  returned :
      {A : Type 0} (Q : A → World → Type 0) (R : World → Type 0) (p : Result A × World) (a : A)
      → Meets Q R p
      → p.0 ≡ ok a
      → Q a p.1
  returned Q R (ok b, w) a held same = ground (arith, held)
  returned Q R (err e, w) a held same = ground arith

  -- An upload without an idempotency key that returned can be downloaded at once: where each file has
  -- a blob under its id with the digest and the size of its metadata, and the ids that `uuid4` makes
  -- differ, a `download` after the `create` returns the metadata and the bytes that were sent, unless
  -- the file has expired by then; and the name, the type, the metadata and the owner are the client's.
  pub download-create :
      (p : FileObjectCreate) (bytes : List ℕ) (w : World) (c : FileObjectData)
      → IsFresh rt
      → IsBacked rt w
      → p.idempotency_key ≡ none
      → (create rt svc p bytes w).0 ≡ ok c
      → file_is_expired c (rt.clock (create rt svc p bytes w).1.ticks) ≡ false
      → ((download rt svc c.id true (create rt svc p bytes w).1).0 ≡ ok (c, bytes))
        × (c.filename ≡ p.filename)
        × (c.mime_type ≡ p.mime_type)
        × (c.metadata ≡ p.metadata)
        × (c.owner ≡ p.owner)
  download-create p bytes w c fresh h keyless done alive =
      let (placed, of) =
        returned _ _ (create rt svc p bytes w) c
          ((create_keyless-Triple rt svc p bytes fresh keyless).run w h) done in
      placed_reads p c bytes (create rt svc p bytes w).1 placed of alive
