-- ===== src/Services/Files/Backed/Commands.antt =====
-- The operations of `FileService` and `UploadService` in any order.
use rescs.Prelude.{ℕ, String, Option, List, [], ◌∷◌}
use rescs.World.{Runtime, World}
use rescs.Services.Common.{Service}
use rescs.Services.Triples.{Triple-Keeps, Triple-weaken}
use rescs.Services.Files.Create.{FileObjectCreate, create, create_stream}
use rescs.Services.Files.Lifecycle.{delete, restore, purge}
use rescs.Services.Files.Listing.{cleanup_expired}
use rescs.Prelude.Int.{ℤ}
use rescs.Services.Uploads.Shared as Sessions
use rescs.Services.Uploads.Shared.{UploadCreate}
use rescs.Services.Uploads.Chunks.{put_chunk}
use rescs.Services.Uploads.Cleanup as Sweep
use rescs.Services.Uploads.Cleanup.{cancel}
use rescs.Services.Uploads.Finalize.{finalize}
use rescs.Services.Uploads.Quiet as UploadQuiet
use rescs.Services.Uploads.Quiet.{put_chunk-Quiet, cancel-Quiet}
use rescs.Services.Uploads.Backed.{create-Quiet}
use rescs.Services.Uploads.Backed.Publishing.{finalize-Keeps}
use rescs.Services.Files.Backed.Parts.{Quiet-Keeps}
use rescs.Services.Files.Backed.{IsFresh, IsBacked, IsBacked-quiet}
use rescs.Services.Files.Backed.Uploading.{create-Triple}
use rescs.Services.Files.Backed.Streaming.{create_stream-Keeps}
use rescs.Services.Files.Backed.Operations.{
  delete-Keeps, restore-Keeps, purge-Keeps, cleanup_expired-Keeps,
}

-- A call of a service that may change a file or a blob.
pub data Command : Type 0 where
  uploaded : FileObjectCreate → List ℕ → Command
  streamed : FileObjectCreate → List (List ℕ) → Command
  deleted : String → String → Option String → Command
  restored : String → Option String → Command
  purged : String → Option String → Command
  cleaned : String → ℕ → Command
  begun : UploadCreate → Command
  chunk_put : String → ℤ → List ℕ → String → Command
  finalized : String → String → Command
  cancelled : String → String → Command
  swept : String → ℕ → Command

module _ (rt : Runtime) (svc : Service) where
  -- The world after a call, whether it returned or raised.
  abbrev pub after : Command → World → World
  after (uploaded p bytes) w = (create rt svc p bytes w).1
  after (streamed p chunks) w = (create_stream rt svc p chunks w).1
  after (deleted id actor expected) w = (delete rt svc id actor expected w).1
  after (restored id expected) w = (restore rt svc id expected w).1
  after (purged id expected) w = (purge rt svc id expected w).1
  after (cleaned actor limit) w = (cleanup_expired rt svc actor limit w).1
  after (begun p) w = (Sessions.create rt svc p w).1
  after (chunk_put id offset bytes actor) w = (put_chunk rt svc id offset bytes actor w).1
  after (finalized id actor) w = (finalize rt svc id actor w).1
  after (cancelled id actor) w = (cancel rt svc id actor w).1
  after (swept actor limit) w = (Sweep.cleanup_expired rt svc actor limit w).1

  after-IsBacked : (c : Command) (w : World) → IsFresh rt → IsBacked rt w → IsBacked rt (after c w)
  after-IsBacked (uploaded p bytes) w fresh =
      (Triple-Keeps (
          Triple-weaken (λ w h. h) (λ a w h. h.sound) (λ w h. h)
            (create-Triple rt svc p bytes fresh))).keeps
        w
  after-IsBacked (streamed p chunks) w fresh = (create_stream-Keeps rt svc p chunks fresh).keeps w
  after-IsBacked (deleted id actor expected) w fresh =
      (delete-Keeps rt svc id actor expected).keeps w
  after-IsBacked (restored id expected) w fresh = (restore-Keeps rt svc id expected).keeps w
  after-IsBacked (purged id expected) w fresh = (purge-Keeps rt svc id expected).keeps w
  after-IsBacked (cleaned actor limit) w fresh = (cleanup_expired-Keeps rt svc actor limit).keeps w
  after-IsBacked (begun p) w fresh =
      (Quiet-Keeps (IsBacked-quiet rt) (create-Quiet rt svc p)).keeps w
  after-IsBacked (chunk_put id offset bytes actor) w fresh =
      (Quiet-Keeps (IsBacked-quiet rt) (put_chunk-Quiet rt svc id offset bytes actor)).keeps w
  after-IsBacked (finalized id actor) w fresh = (finalize-Keeps rt svc id actor fresh).keeps w
  after-IsBacked (cancelled id actor) w fresh =
      (Quiet-Keeps (IsBacked-quiet rt) (cancel-Quiet rt svc id actor)).keeps w
  after-IsBacked (swept actor limit) w fresh =
      (Quiet-Keeps (IsBacked-quiet rt) (UploadQuiet.cleanup_expired-Quiet rt svc actor limit)).keeps
        w

  abbrev pub after_all : List Command → World → World
  after_all [] w = w
  after_all (c ∷ cs) w = after_all cs (after c w)

  -- Whatever calls of `create`, `create_stream`, `delete`, `restore`, `purge` and `cleanup_expired` of
  -- `FileService` and of `create`, `put_chunk`, `finalize`, `cancel` and `cleanup_expired` of
  -- `UploadService` are made, in any order, each returning or raising, if the ids that `uuid4` makes
  -- differ: where each
  -- file has a blob under its id with the digest and the size of its metadata, each blob that is not
  -- a chunk is that of a file, the path of a file is its id, the store is indexed as
  -- `Reach-IsIndexed` says, and no id that is still to be made is taken, all this holds afterwards.
  -- So no upload that fails, in one request or at `finalize`, leaves an object without a file behind.
  pub after_all-IsBacked :
      (cs : List Command) (w : World) → IsFresh rt → IsBacked rt w → IsBacked rt (after_all cs w)
  after_all-IsBacked [] w fresh h = h
  after_all-IsBacked (c ∷ cs) w fresh h =
      after_all-IsBacked cs (after c w) fresh (after-IsBacked c w fresh h)
