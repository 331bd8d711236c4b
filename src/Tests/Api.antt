-- ===== src/Tests/Api.antt =====
-- The routes.
use Prim.Native.String.{String}
use Prim.Native.String
use rescs.Prelude.{
  string_eq, ◌≡◌, ◌≢◌, refl, true, false, none, some, [], arith, is_empty, ◌≤◌, strip, Option,
}
use rescs.Prelude.Int.{pos}
use rescs.Errors.{ok, err, forbidden}
use rescs.Dict.{get, set, count}
use rescs.World.{World}
use rescs.Memory.Records as RecordRepo
use rescs.Memory.Records.{count_by_owner, record_item}
use rescs.Services.Common.{audited}
use rescs.Security.{validate_device_namespace, validate_device_owner}
use rescs.Domain.{object, end_fields, RecordData}
use rescs.Domain.Tags.{normalize_tags, validate_tags}
use rescs.Memory.Store
use rescs.Memory.Records.{RecordFilter}
use rescs.Memory.Files.{FileFilter}
use rescs.Services.Audit.{AuditFilter}
use rescs.Services.Common.{Settings, Service, check_metadata_size}
use rescs.Services.Expiry.{resolve_expiry, resolve_at}
use rescs.Services.Records.Payload.{RecordCreate, RecordUpdate}
use rescs.Api.Requests.{Caller, parse_etag}
use rescs.Api.Records.{
  create_record, get_record, update_record, delete_record, restore_record, purge_record,
  list_records, put_record,
}
use rescs.Api.Files.{
  get_file_metadata, download_file, delete_file, restore_file, purge_file, list_files, safe_name,
}
use rescs.Api.Admin.{list_audit, list_deleted_records, list_deleted_files}
use rescs.Api.Denied.{IsDenied}
use rescs.Api.Lock.{lock_protects_records}
use rescs.Api.Devices.{device_reaches_no_file, from_device}
use rescs.Api.Listings.{lock_confines_listings, ShowsOnly, without_device}
use rescs.Api.Replay.{create_record_discloses}
use rescs.Api.Names.{safe_name_lem, all_safe}
use rescs.Security.{drop_prefix}
use rescs.Tests.Files.{fresh_runtime, world_after}
use rescs.Tests.Data.{runtime, service, settings, first_record, world}

abbrev locked : Settings
locked = record settings { api_key_owner = "bob" }

abbrev locked_service : Service
locked_service = record { settings = some locked; audits = true }

abbrev bob : Caller
bob = without_device "bob"

abbrev nothing : RecordUpdate
nothing = record {
  value = none;
  metadata = none;
  namespace = none;
  key = none;
  tags = none;
  expires_at = none;
  ttl_seconds = none;
}

stored : get "a" world.records.items ≡ some first_record
unfolding Store.create get set
stored = refl

foreign : first_record.owner ≢ "bob"
foreign h = ground (arith, string_eq.beq_iff "ann" "bob", h)

lock_protects_records_example :
    IsDenied (get_record runtime locked_service locked bob "a" world) world
    × IsDenied (update_record runtime locked_service locked bob "a" nothing none world) world
    × IsDenied (delete_record runtime locked_service locked bob "a" none world) world
    × IsDenied (restore_record runtime locked_service locked bob "a" none world) world
    × IsDenied (purge_record runtime locked_service locked bob "a" none world) world
lock_protects_records_example =
    lock_protects_records runtime locked_service locked bob "a" world first_record nothing none
      stored refl foreign

device_reaches_no_file_example :
    let caller = from_device "ann" "dev1" in
    IsDenied (get_file_metadata fresh_runtime service settings caller "" world_after) world_after
    × IsDenied
        (download_file fresh_runtime service settings caller (λ s. s) 0 "" world_after)
        world_after
    × IsDenied (delete_file fresh_runtime service settings caller "" none world_after) world_after
    × IsDenied (restore_file fresh_runtime service settings caller "" none world_after) world_after
    × IsDenied (purge_file fresh_runtime service settings caller "" none world_after) world_after
device_reaches_no_file_example =
    device_reaches_no_file fresh_runtime service settings "ann" "dev1" "" world_after (λ s. s) 0
      none

abbrev any_record : RecordFilter
any_record = record {
  namespace = none;
  key_prefix = none;
  owner = none;
  tags = none;
  created_after = none;
  created_before = none;
  updated_after = none;
  updated_before = none;
  include_deleted = false;
  include_expired = false;
}

abbrev any_file : FileFilter
any_file = record {
  owner = none;
  tags = none;
  mime_type = none;
  size_min = none;
  size_max = none;
  created_after = none;
  created_before = none;
  updated_after = none;
  updated_before = none;
  include_deleted = false;
  include_expired = false;
}

abbrev any_event : AuditFilter
any_event = record { owner = none; operation = none; since = none }

abbrev own : Settings
own = record settings { api_key_owner = "ann" }

abbrev own_service : Service
own_service = record { settings = some own; audits = true }

abbrev ann : Caller
ann = without_device "ann"

lock_confines_listings_example :
    ShowsOnly
      (λ r. r.owner)
      "ann"
      (list_records runtime own_service own ann any_record none (pos 10) (pos 0) world)
    × ShowsOnly
        (λ x. x.owner)
        "ann"
        (list_files runtime own_service own ann any_file (pos 10) (pos 0) world)
    × ShowsOnly
        (λ r. r.owner)
        "ann"
        (list_deleted_records runtime own_service own ann none none (pos 10) (pos 0) world)
    × ShowsOnly
        (λ x. x.owner)
        "ann"
        (list_deleted_files runtime own_service own ann none (pos 10) (pos 0) world)
    × ShowsOnly
        (λ e. e.owner)
        "ann"
        (list_audit runtime own_service own ann any_event (pos 10) (pos 0) world)
lock_confines_listings_example =
    lock_confines_listings runtime own_service own "ann" any_record none any_file any_event none
      none (pos 10) (pos 0) world refl

abbrev by_key : RecordCreate
by_key = record {
  namespace = "default";
  key = "other";
  value = object end_fields;
  metadata = object end_fields;
  owner = "bob";
  idempotency_key = some "once";
  tags = [];
  expires_at = none;
  ttl_seconds = none;
}

key_leads : get "once" world.records.idempotency ≡ some "a"
unfolding Store.create get set
key_leads = refl

by_key_tags : validate_tags (normalize_tags by_key.tags) ≡ ok tt
unfolding validate_tags normalize_tags
by_key_tags = refl

by_key_metadata : check_metadata_size runtime locked_service.settings by_key.metadata ≡ ok tt
unfolding check_metadata_size
by_key_metadata = refl

by_key_expiry : (resolve_expiry runtime none none locked_service.settings world).0 ≡ ok none
unfolding resolve_expiry resolve_at
by_key_expiry = refl

create_record_discloses_example :
    ((create_record runtime locked_service locked bob by_key world).0 ≡ ok first_record)
    × IsDenied (get_record runtime locked_service locked bob "a" world) world
create_record_discloses_example =
    create_record_discloses runtime locked_service locked "bob" by_key "once" "a" first_record world
      none refl refl by_key_tags by_key_metadata by_key_expiry refl key_leads stored refl refl
      foreign

safe_name_lem_example :
    (all_safe (safe_name "a\"b\nc.txt") ≡ true)
    × (is_empty (safe_name "a\"b\nc.txt") ≡ false)
    × (String.count (safe_name "a\"b\nc.txt") ≤ 180)
safe_name_lem_example = safe_name_lem "a\"b\nc.txt"

safe_name_run : safe_name "a\"b\nc.txt" ≡ "abc.txt"
unfolding safe_name strip
safe_name_run = refl

weak_etag : parse_etag (some " W/\"abc\" ") ≡ some "abc"
unfolding parse_etag strip drop_prefix
weak_etag = refl

blank_etag : parse_etag (some "  ") ≡ some ""
unfolding parse_etag strip
blank_etag = refl

-- With an owner lock and a device, the owner of a new record is not the locked one.
abbrev device_payload : RecordCreate
device_payload = record by_key { owner = "ann"; key = "mine"; idempotency_key = none }

device_record_run :
    (get_record runtime own_service own
      (from_device "ann" "dev1")
      "u0"
      (create_record runtime own_service own (from_device "ann" "dev1") device_payload world).1).0
    ≡ err forbidden
unfolding get_record create_record get validate_device_namespace validate_device_owner validate_tags
    normalize_tags check_metadata_size resolve_expiry resolve_at Store.create set count_by_owner
    Store.count_items count RecordRepo.create audited
device_record_run = refl

abbrev owner_in : Option RecordData → Option String
owner_in none = none
owner_in (some r) = some r.owner

-- A `put` of the locked owner replaces the record of another one.
abbrev put_payload : RecordCreate
put_payload = record by_key { key = "k"; idempotency_key = none }

abbrev put_world : World
put_world = (put_record runtime locked_service locked bob put_payload none world).1

put_record_run : owner_in (get "a" put_world.records.items) ≡ some "bob"
unfolding put_record get RecordRepo.get_by_namespace_key Store.create set validate_tags
    normalize_tags check_metadata_size resolve_expiry resolve_at RecordRepo.update Store.update
    audited
put_record_run = refl
