-- ===== src/Api/Replay.antt =====
-- What an idempotency key gives away.
use rescs.Prelude.{
  String, string_eq, ==-refl, ◌≡◌, ◌≢◌, refl, false, Option, none, some, ℕ, arith, is_empty, truthy,
}
use rescs.Errors.{ok}
use rescs.Dict.{get}
use rescs.Domain.{RecordData}
use rescs.Domain.Tags.{normalize_tags, validate_tags}
use rescs.Security.{enforce_owner}
use rescs.World.{Runtime, World}
use rescs.Services.Common.{Settings, Service, check_metadata_size}
use rescs.Services.Expiry.{resolve_expiry}
use rescs.Services.Records.Payload.{RecordCreate}
use rescs.Services.Records.Create.Replay.{create-replay}
use rescs.Api.Requests.{scope_namespace, scope_owner}
use rescs.Api.Records.{assign, create_record, get_record}
use rescs.Api.Denied.{IsDenied}
use rescs.Api.Lock.{lock_protects_records}
use rescs.Api.Listings.{without_device}
use rescs.Services.Records.Payload.{RecordUpdate}

truthy_full : (s : String) → is_empty s ≡ false → truthy (some s) ≡ some s
truthy_full String.[] h = ground (arith, h)
truthy_full (String.◌∷◌ c s) h = refl

module _ (rt : Runtime) (svc : Service) (settings : Settings) (principal : String) where
  assign_locked :
      (p : RecordCreate)
      → is_empty settings.api_key_owner ≡ false
      → p.owner ≡ settings.api_key_owner
      → assign rt svc settings (without_device principal) p
        ≡ ok (record p { owner = settings.api_key_owner })
  unfolding assign enforce_owner scope_namespace scope_owner
  assign_locked p locked own = ground (
    arith,
    own,
    locked,
    truthy_full settings.api_key_owner locked,
    ==-refl settings.api_key_owner,
  )

  -- An idempotency key shows the record of another owner in spite of the owner lock: a `create_record`
  -- of the locked owner, whose payload passes the checks that come first, returns the live record that
  -- its idempotency key leads to, while `get_record` turns the same caller away from that record with
  -- an error of the status 401, 403 or 404.
  pub create_record_discloses :
      (p : RecordCreate) (k id : String) (r : RecordData) (w : World) (expires_at : Option ℕ)
      → is_empty settings.api_key_owner ≡ false
      → p.owner ≡ settings.api_key_owner
      → validate_tags (normalize_tags p.tags) ≡ ok tt
      → check_metadata_size rt svc.settings p.metadata ≡ ok tt
      → (resolve_expiry rt p.expires_at p.ttl_seconds svc.settings w).0 ≡ ok expires_at
      → p.idempotency_key ≡ some k
      → get k w.records.idempotency ≡ some id
      → get id w.records.items ≡ some r
      → r.deleted_at ≡ none
      → r.expires_at ≡ none
      → r.owner ≢ settings.api_key_owner
      → let caller = without_device principal in
        ((create_record rt svc settings caller p w).0 ≡ ok r)
        × IsDenied (get_record rt svc settings caller id w) w
  unfolding create_record
  create_record_discloses p k id r w e locked own tags metadata resolved given leads there present
        lasting other =
      let shown =
        create-replay rt svc (record p { owner = settings.api_key_owner }) k id r w e tags metadata
          resolved given leads there present lasting in
      let nothing : RecordUpdate = record {
        value = none;
        metadata = none;
        namespace = none;
        key = none;
        tags = none;
        expires_at = none;
        ttl_seconds = none;
      } in
      (
        rw (assign_locked p locked own) shown.0,
        (lock_protects_records rt svc settings (without_device principal) id w r nothing none there
            locked other).0,
      )
