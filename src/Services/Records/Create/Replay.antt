-- ===== src/Services/Records/Create/Replay.antt =====
-- A `create` that is sent twice.
use rescs.Prelude.{String, string_eq, ◌≡◌, ℕ, Option, none, some, arith}
use rescs.Errors.{ok}
use rescs.Dict.{get}
use rescs.Domain.{RecordData}
use rescs.Domain.Tags.{normalize_tags, validate_tags}
use rescs.Memory.Records as Repo
use rescs.Memory.Store
use rescs.World.{Runtime, World}
use rescs.Services.Common.{Service, check_metadata_size}
use rescs.Services.Expiry.{resolve_expiry}
use rescs.Services.Records.Payload.{RecordCreate}
use rescs.Services.Records.Create.{create, replay}

module _ (rt : Runtime) (svc : Service) where
  -- A valid `create` whose idempotency key leads to a record that is not deleted and has no expiry
  -- returns this record and writes nothing, neither a record nor an audit event.
  pub create-replay :
      (p : RecordCreate) (k id : String) (r : RecordData) (w : World) (expires_at : Option ℕ)
      → validate_tags (normalize_tags p.tags) ≡ ok tt
      → check_metadata_size rt svc.settings p.metadata ≡ ok tt
      → (resolve_expiry rt p.expires_at p.ttl_seconds svc.settings w).0 ≡ ok expires_at
      → p.idempotency_key ≡ some k
      → get k w.records.idempotency ≡ some id
      → get id w.records.items ≡ some r
      → r.deleted_at ≡ none
      → r.expires_at ≡ none
      → ((create rt svc p w).0 ≡ ok r)
        × ((create rt svc p w).1.records ≡ w.records)
        × ((create rt svc p w).1.events ≡ w.events)
  unfolding create replay resolve_expiry Repo.find_by_idempotency_key Store.find_by_idempotency_key
  create-replay p k id r w e tags metadata resolved given leads there present lasting = ground arith
