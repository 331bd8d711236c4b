-- ===== src/Memory/Blobs.antt =====
-- `MemoryObjectStore` of src/rescs/storage/memory.py.
use rescs.Prelude.{ℕ, Bool, none, some, List, length}
use rescs.Errors.{ok, err, storage}
use rescs.Action.{Action}
use rescs.Dict
use rescs.Dict.{contains, set, pop}
use rescs.World.{World, BlobKey, blob_key_eq}

unfoldable pub put : BlobKey → List ℕ → Action World (Unit {0})
put key bytes w = (ok tt, record w { blobs = set key bytes w.blobs })

unfoldable pub get : BlobKey → Action World (List ℕ)
get key w = elim (Dict.get key w.blobs) [ none ↦ (err storage, w) | some bytes ↦ (ok bytes, w) ]

unfoldable pub delete : BlobKey → Action World (Unit {0})
delete key w = (ok tt, record w { blobs = pop key w.blobs })

abbrev pub exists : BlobKey → World → Bool
exists key w = contains key w.blobs

unfoldable pub size : BlobKey → Action World ℕ
size key w = elim (Dict.get key w.blobs) [
  | none ↦ (err storage, w)
  | some bytes ↦ (ok (length bytes), w)
]
