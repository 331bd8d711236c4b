-- ===== src/Tests/Files.antt =====
-- Files and their blobs.
use rescs.Prelude.{
  String, string_eq, ◌≡◌, refl, true, false, none, some, ℕ, zero, suc, List, [], ◌∷◌, length, arith,
  ap,
}
use rescs.Prelude.Int.{pos}
use rescs.Services.Uploads.Shared.{UploadCreate}
use rescs.Errors.{ok}
use rescs.Dict.{get, set, count}
use rescs.Domain.Tags.{validate_tags, normalize_tags}
use rescs.Services.Expiry.{resolve_expiry, resolve_at}
use rescs.Memory.Store
use rescs.Memory.Store.{count_items}
use rescs.Memory.Files.{count_by_owner, bytes_by_owner}
use rescs.Services.Common.{audited, file_etag}
use rescs.Domain.{FileObjectData, object, end_fields, file_is_expired}
use rescs.Memory.Store.{empty_store}
use rescs.Memory.Store.Reach.{IsIndexed-empty}
use rescs.Memory.Files.{live, file_item}
use rescs.World.{Runtime, World}
use rescs.Services.Files.Create.{FileObjectCreate, create}
use rescs.Services.Files.Download.{download, download_stream, consume}
use rescs.Services.Files.Backed.{IsFresh, IsBacked}
use rescs.Services.Files.Backed.Commands.{
  Command, after_all, after_all-IsBacked, uploaded, streamed, deleted, restored, purged, cleaned,
  begun, chunk_put, finalized, cancelled, swept,
}
use rescs.Services.Files.Backed.Reading.{download-IsBacked, download-create}
use rescs.Tests.Data.{runtime, service, world}

-- Ids that differ: as many letters as their number.
abbrev letters : ℕ → String
letters zero = String.[]
letters (suc n) = String.◌∷◌ "a" (letters n)

abbrev count_letters : String → ℕ
count_letters String.[] = 0
count_letters (String.◌∷◌ _ s) = suc (count_letters s)

count_letters-letters : (n : ℕ) → count_letters (letters n) ≡ n
count_letters-letters zero = refl
count_letters-letters (suc n) = ap suc (count_letters-letters n)

abbrev pub fresh_runtime : Runtime
fresh_runtime = record runtime { uuid = letters }

fresh : IsFresh fresh_runtime
fresh m n same =
    omega (arith, count_letters-letters m, count_letters-letters n, ap count_letters same)

world-IsBacked : IsBacked fresh_runtime world
unfolding get
world-IsBacked = record {
  indexed = IsIndexed-empty;
  own_path = λ id f found. ground arith;
  backed = λ id. refl;
  unissued = λ n le. refl;
}

abbrev payload : FileObjectCreate
payload = record {
  filename = "f.txt";
  mime_type = "text/plain";
  metadata = object end_fields;
  owner = "ann";
  idempotency_key = none;
  tags = [];
  expires_at = none;
  ttl_seconds = none;
}

abbrev upload : UploadCreate
upload = record {
  owner = "ann";
  filename = "g.txt";
  content_type = "text/plain";
  total_size = pos 2;
  chunk_size = pos 65536;
  checksum = none;
  metadata = none;
  tags = none;
}

abbrev commands : List Command
commands =
    uploaded payload (1 ∷ 2 ∷ [])
    ∷ streamed payload ((3 ∷ []) ∷ (4 ∷ []) ∷ [])
    ∷ deleted "" "ann" none
    ∷ restored "" none
    ∷ purged "" none
    ∷ cleaned "ann" 10
    ∷ begun upload
    ∷ chunk_put "aaaaaaaa" (pos 0) (5 ∷ 6 ∷ []) "ann"
    ∷ finalized "aaaaaaaa" "ann"
    ∷ begun upload
    ∷ cancelled "aaaaaaaaaaaaa" "ann"
    ∷ swept "ann" 10
    ∷ []

after_all-IsBacked_example : IsBacked fresh_runtime (after_all fresh_runtime service commands world)
after_all-IsBacked_example =
    after_all-IsBacked fresh_runtime service commands world fresh world-IsBacked

abbrev stored : FileObjectData
stored = record {
  id = "";
  filename = "f.txt";
  mime_type = "text/plain";
  size = 2;
  storage_path = "";
  sha256 = "digest";
  metadata = object end_fields;
  owner = "ann";
  version = 1;
  idempotency_key = none;
  etag = "digest:4";
  created_at = 1003;
  updated_at = 1003;
  tags = [];
  expires_at = none;
  deleted_at = none;
  deleted_by = none;
}

create_run : (create fresh_runtime service payload (1 ∷ 2 ∷ []) world).0 ≡ ok stored
unfolding create get validate_tags normalize_tags resolve_expiry resolve_at count_by_owner
    count_items count bytes_by_owner Store.create set audited file_etag
create_run = refl

abbrev pub world_after : World
world_after = (create fresh_runtime service payload (1 ∷ 2 ∷ []) world).1

world_after-IsBacked : IsBacked fresh_runtime world_after
world_after-IsBacked =
    after_all-IsBacked fresh_runtime service (uploaded payload (1 ∷ 2 ∷ []) ∷ []) world fresh
      world-IsBacked

stored_found : get "" world_after.files.items ≡ some stored
unfolding create get validate_tags normalize_tags resolve_expiry resolve_at count_by_owner
    count_items count bytes_by_owner Store.create set audited file_etag
stored_found = refl

stored_live : live stored (fresh_runtime.clock world_after.ticks) ≡ true
unfolding create get validate_tags normalize_tags resolve_expiry resolve_at count_by_owner
    count_items count bytes_by_owner Store.create set audited file_etag live
stored_live = refl

download-IsBacked_example :
    (bytes : List ℕ) × ((download fresh_runtime service "" true world_after).0 ≡ ok (stored, bytes))
    × ((download_stream fresh_runtime service "" world_after).0 ≡ ok stored)
    × (consume fresh_runtime service stored (download_stream fresh_runtime service "" world_after).1
        ≡ (bytes, ok tt))
    × (fresh_runtime.sha256 bytes ≡ stored.sha256)
    × (length bytes ≡ stored.size)
download-IsBacked_example =
    download-IsBacked fresh_runtime service "" true world_after stored world_after-IsBacked
      stored_found stored_live

stored_current : file_is_expired stored (fresh_runtime.clock world_after.ticks) ≡ false
unfolding create get validate_tags normalize_tags resolve_expiry resolve_at count_by_owner
    count_items count bytes_by_owner Store.create set audited file_etag file_is_expired
stored_current = refl

download-create_example :
    ((download fresh_runtime service "" true world_after).0 ≡ ok (stored, 1 ∷ 2 ∷ []))
    × (stored.filename ≡ payload.filename)
    × (stored.mime_type ≡ payload.mime_type)
    × (stored.metadata ≡ payload.metadata)
    × (stored.owner ≡ payload.owner)
download-create_example =
    download-create fresh_runtime service payload (1 ∷ 2 ∷ []) world stored fresh world-IsBacked
      refl create_run stored_current
