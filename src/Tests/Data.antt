-- ===== src/Tests/Data.antt =====
-- The runtime, the records and the sessions that the tests share.
use rescs.Prelude.{◌==◌, nat_eq, ◌+◌, true, some, none, [], ◌∷◌, if◌then◌else◌}
use rescs.Domain.{RecordData, object, end_fields, UploadSessionData, active}
use rescs.Memory.Store.{Store, empty_store, create}
use rescs.Memory.Records.{record_item}
use rescs.World.{Runtime, World}
use rescs.Services.Common.{Settings, Service}

abbrev pub runtime : Runtime
runtime = record {
  clock = λ n. 1000 + n;
  uuid = λ n. if n == 0 then "u0" else "u1";
  dumped_size = λ _. 2;
  dumps = λ _ _. "{}";
  canonical = λ _ _ _. "[]";
  sha256_text = λ s. s;
  sha256 = λ _. "digest";
  decimal = λ _. "4";
  lower = λ s. s;
  request_id = none;
}

abbrev pub settings : Settings
settings = record {
  api_key_owner = "";
  max_records_per_owner = 1;
  max_files_per_owner = 1;
  max_bytes_per_owner = 100;
  max_file_size = 50;
  max_metadata_bytes = 65536;
  max_bulk_batch = 100;
  max_ttl_seconds = 60;
}

abbrev pub service : Service
service = record { settings = some settings; audits = true }

abbrev pub first_record : RecordData
first_record = record {
  id = "a";
  namespace = "default";
  key = "k";
  value = object end_fields;
  metadata = object end_fields;
  owner = "ann";
  version = 1;
  idempotency_key = some "once";
  etag = "e";
  created_at = 5;
  updated_at = 5;
  tags = "red" ∷ [];
  expires_at = none;
  deleted_at = none;
  deleted_by = none;
}

abbrev pub second_record : RecordData
second_record = record first_record { id = "b"; key = "l"; idempotency_key = none; updated_at = 6 }

abbrev pub one_store : Store RecordData
one_store = (create first_record (some ("default", "k")) empty_store).1

abbrev pub two_store : Store RecordData
two_store = (create second_record (some ("default", "l")) one_store).1

abbrev pub upload : UploadSessionData
upload = record {
  id = "s";
  owner = "ann";
  filename = "f";
  content_type = "text/plain";
  total_size = 3;
  received_bytes = 0;
  chunk_size = 65536;
  status = active;
  checksum = none;
  created_at = 5;
  updated_at = 5;
  expires_at = 5000;
  metadata = object end_fields;
  tags = [];
}

abbrev pub world : World
world = record {
  records = one_store;
  files = empty_store;
  events = [];
  sessions = ("s", upload) ∷ [];
  blobs = [];
  ticks = 0;
  uuids = 0;
}
