-- ===== src/Services/Files/Download.antt =====
-- `download` and `download_stream` of `FileService`.
use rescs.Prelude.{String, ◌==◌, string_eq, ℕ, Bool, not, ◌&&◌, none, some, List, [], if◌then◌else◌}
use rescs.Errors.{Result, ok, err, storage}
use rescs.Action.{Action, pure, raise_if, ◌>>=◌, ◌>>◌}
use rescs.Dict
use rescs.Domain.{FileObjectData}
use rescs.Memory.Files as Repo
use rescs.Memory.Blobs as Blobs
use rescs.World.{Runtime, World, object, blob_key_eq}
use rescs.Services.Common.{Service}
use rescs.Services.Files.Shared.{audited_ok, with_target}

module _ (rt : Runtime) (svc : Service) where
  unfoldable pub read_file : Bool → FileObjectData → Action World (FileObjectData × List ℕ)
  unfolding Blobs.get
  read_file verify f = do
    bytes ← Blobs.get (object f.storage_path)
    raise_if (verify && not (rt.sha256 bytes == f.sha256)) storage
    audited_ok rt svc "file.download" f
    pure (f, bytes)

  unfoldable pub download : String → Bool → Action World (FileObjectData × List ℕ)
  unfolding Repo.get read_file
  download id verify = with_target rt svc "file.download" (Repo.get rt id) (read_file verify)

  -- `download_stream` returns the metadata; the iterator is `consume`.
  unfoldable pub download_stream : String → Action World FileObjectData
  unfolding Repo.get
  download_stream id = do f ← Repo.get rt id; audited_ok rt svc "file.download" f; pure f

  -- What the iterator of `_verifying` yields when it is read to its end, its chunks joined, and how it
  -- ends. It opens the blob when it is first read.
  unfoldable pub consume : FileObjectData → World → List ℕ × Result (Unit {0})
  consume f w = elim (Dict.get (object f.storage_path) w.blobs) [
    | none ↦ ([], err storage)
    | some bytes ↦ (bytes, if rt.sha256 bytes == f.sha256 then ok tt else err storage)
  ]
