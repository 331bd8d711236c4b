-- ===== src/Services/Files/Backed.antt =====
-- The files and the blobs of the object store belong together.
pub mod Steps
pub mod Parts
pub mod Found
pub mod Uploading
pub mod Streaming
pub mod Operations
pub mod Commands
pub mod Reading
use rescs.Prelude.{String, string_eq, ℕ, ◌≤◌, ◌≡◌, ◌≢◌, Option, none, some, List, length, arith}
use rescs.Dict.{get}
use rescs.Domain.{FileObjectData}
use rescs.Memory.Store.Invariant.{IsIndexed}
use rescs.Memory.Files.{file_item}
use rescs.World.{Runtime, World, object, blob_key_eq}
use rescs.Services.Files.Quiet.{IsQuiet}

-- The ids that `uuid4` makes differ from one another.
abbrev pub IsFresh : Runtime → Type 0
IsFresh rt = (m n : ℕ) → rt.uuid m ≡ rt.uuid n → m ≡ n

-- What the metadata says of the bytes: their digest and their number.
abbrev pub claimed : Option FileObjectData → Option (String × ℕ)
claimed none = none
claimed (some f) = some (f.sha256, f.size)

abbrev pub printed : Runtime → Option (List ℕ) → Option (String × ℕ)
printed rt none = none
printed rt (some bytes) = some (rt.sha256 bytes, length bytes)

module _ (rt : Runtime) where
  -- Each file has a blob under its id, with the digest and the size of its metadata; each blob that is
  -- not a chunk is that of a file; and no id that is still to be made is taken.
  pub record IsBacked (w : World) : Type 0 where
    pub indexed : IsIndexed w.files
    pub own_path :
        (id : String) (f : FileObjectData) → get id w.files.items ≡ some f → f.storage_path ≡ id
    pub backed :
        (id : String) → printed rt (get (object id) w.blobs) ≡ claimed (get id w.files.items)
    pub unissued : (n : ℕ) → w.uuids ≤ n → get (rt.uuid n) w.files.items ≡ none

  -- The same but for one id, which is new: its blob is written and its metadata is not.
  pub record IsPending (id : String) (bytes : List ℕ) (w : World) : Type 0 where
    pub indexed : IsIndexed w.files
    pub own_path :
        (j : String) (f : FileObjectData) → get j w.files.items ≡ some f → f.storage_path ≡ j
    pub others :
        (j : String) → id ≢ j → printed rt (get (object j) w.blobs) ≡ claimed (get j w.files.items)
    pub stored : get (object id) w.blobs ≡ some bytes
    pub absent : get id w.files.items ≡ none
    pub unissued : (n : ℕ) → w.uuids ≤ n → get (rt.uuid n) w.files.items ≡ none
    pub ahead : (n : ℕ) → w.uuids ≤ n → rt.uuid n ≢ id

  -- An id that has just been made.
  pub record IsNew (id : String) (w : World) : Type 0 where
    pub sound : IsBacked w
    pub absent : get id w.files.items ≡ none
    pub ahead : (n : ℕ) → w.uuids ≤ n → rt.uuid n ≢ id

  -- A file that is stored under its id.
  pub record Holds (f : FileObjectData) (w : World) : Type 0 where
    pub sound : IsBacked w
    pub there : get f.id w.files.items ≡ some f

  -- All four outlast what leaves the files and the blobs alone.
  pub IsBacked-quiet : (v w : World) → IsQuiet v w → IsBacked w → IsBacked v
  IsBacked-quiet v w q h = record {
    indexed = rw q.files h.indexed;
    own_path = rw q.files h.own_path;
    backed = λ id. rw (q.files, q.blobs id) (h.backed id);
    unissued = λ n le. rw q.files (h.unissued n (omega (arith, q.uuids)));
  }

  pub IsPending-quiet :
      (id : String) (bytes : List ℕ) (v w : World)
      → IsQuiet v w
      → IsPending id bytes w
      → IsPending id bytes v
  IsPending-quiet id bytes v w q h = record {
    indexed = rw q.files h.indexed;
    own_path = rw q.files h.own_path;
    others = λ j differ. rw (q.files, q.blobs j) (h.others j differ);
    stored = rw (q.blobs id) h.stored;
    absent = rw q.files h.absent;
    unissued = λ n le. rw q.files (h.unissued n (omega (arith, q.uuids)));
    ahead = λ n le. h.ahead n (omega (arith, q.uuids));
  }

  pub IsNew-quiet : (id : String) (v w : World) → IsQuiet v w → IsNew id w → IsNew id v
  IsNew-quiet id v w q h = record {
    sound = IsBacked-quiet v w q h.sound;
    absent = rw q.files h.absent;
    ahead = λ n le. h.ahead n (omega (arith, q.uuids));
  }

  pub Holds-quiet : (f : FileObjectData) (v w : World) → IsQuiet v w → Holds f w → Holds f v
  Holds-quiet f v w q h = record {
    sound = IsBacked-quiet v w q h.sound;
    there = rw q.files h.there;
  }
