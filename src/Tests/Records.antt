-- ===== src/Tests/Records.antt =====
-- The record service.
use rescs.Prelude.{[], ◌∷◌, ◌≡◌, refl, some, none, ◌+◌, string_eq}
use rescs.Errors.{ok, err, not_found, code}
use rescs.Dict.{count, get, set, filter_items}
use rescs.Domain.{RecordData}
use rescs.Memory.Store
use rescs.Memory.Store.{Store}
use rescs.Memory.Records as Repo
use rescs.Memory.Records.{record_item}
use rescs.Services.Common.{audited}
use rescs.Memory.Store.Reach.{Reach-IsIndexed}
use rescs.Services.Records.Lifecycle.{delete, restore}
use rescs.Services.Records.Lifecycle.SoftDelete.{get-delete}
use rescs.Services.Records.Lifecycle.Restore.{restore-delete}
use rescs.Services.Records.Invariant.{IsSound}
use rescs.Services.Records.Invariant.Commands.{
  after_all, after_all-IsSound, deleted, restored, purged,
}
use rescs.Services.Records.Payload.{RecordCreate, RecordUpdate}
use rescs.Services.Records.Create.{create, new_record}
use rescs.Services.Records.Create.Quota.{IsWithin, create-IsWithin}
use rescs.Services.Records.Create.Replay.{create-replay}
use rescs.Services.Records.Update.{update}
use rescs.Services.Records.Lifecycle.{purge}
use rescs.Services.Records.Lifecycle.Etags.{stale_etag_refused}
use rescs.Services.Common.{check_metadata_size}
use rescs.Services.Expiry.{resolve_expiry, resolve_at}
use rescs.Domain.{object, end_fields}
use rescs.Domain.Tags.{normalize_tags, validate_tags}
use rescs.Memory.Records.{live}
use rescs.Memory.Store.{empty_store}
use rescs.World.{World}
use rescs.Errors.{precondition_failed}
use rescs.Prelude.{arith, true}
use rescs.Services.Records.Listing.{list}
use rescs.Services.Records.Listing.Bounds.{IsListing, list-IsListing}
use rescs.Memory.Records.{RecordFilter}
use rescs.Prelude.Int.{pos, negsuc}
use rescs.Domain.{Page}
use rescs.Prelude.{false}
use rescs.Services.Records.Bulk.{
  Operation, unknown_op, create_op, delete_op, Outcome, failed, bulk, batch_max,
}
use rescs.Services.Records.Bulk.Answers.{index_of, numbered, bulk_answers}
use rescs.Errors.{value_error}
use rescs.Prelude.{List, length, map, ◌≤◌}
use rescs.Tests.Data.{runtime, service, world, first_record}
use rescs.Tests.Stores.{one_store-Reach}

stored : get "a" world.records.items ≡ some first_record
unfolding Store.create get set
stored = refl

tombstoned : (delete runtime service "a" "ann" none world).0 ≡ ok tt
unfolding delete Repo.get Repo.update Store.update Store.create get set filter_items audited code
tombstoned = refl

get-delete_example :
    let w' = (delete runtime service "a" "ann" none world).1 in
    let gone : RecordData = record first_record {
      version = 2;
      updated_at = 1001;
      deleted_at = some 1002;
      deleted_by = some "ann";
    } in
    (get "a" w'.records.items ≡ some gone) × ((Repo.get runtime "a" w').0 ≡ err not_found)
get-delete_example =
    get-delete runtime service "ann" none world "a" first_record (Reach-IsIndexed one_store-Reach)
      stored tombstoned

restore-delete_example :
    let w' = (delete runtime service "a" "ann" none world).1 in
    let back : RecordData = record first_record {
      version = 3;
      updated_at = runtime.clock (w'.ticks + 1);
      deleted_at = none;
      deleted_by = none;
    } in
    ((restore runtime service "a" none w').0 ≡ ok back)
    × (get "a" (restore runtime service "a" none w').1.records.items ≡ some back)
restore-delete_example =
    restore-delete runtime service "a" "ann" none first_record world
      (Reach-IsIndexed one_store-Reach) stored tombstoned

after_all-IsSound_example : IsSound (
    after_all runtime service
      (deleted "a" "ann" none ∷ restored "a" none ∷ purged "a" (some "stale") ∷ [])
      world)
after_all-IsSound_example =
    after_all-IsSound runtime service
      (deleted "a" "ann" none ∷ restored "a" none ∷ purged "a" (some "stale") ∷ []) world
      (Reach-IsIndexed one_store-Reach)

alive : live first_record 1000 ≡ true
unfolding live
alive = refl

abbrev patch : RecordUpdate
patch = record {
  value = none;
  metadata = none;
  namespace = none;
  key = some "m";
  tags = none;
  expires_at = none;
  ttl_seconds = none;
}

stale_etag_refused_example :
    ((update runtime service "a" patch (some "old") world).0 ≡ err precondition_failed)
    × ((update runtime service "a" patch (some "old") world).1.records ≡ world.records)
    × ((delete runtime service "a" "ann" (some "old") world).0 ≡ err precondition_failed)
    × ((delete runtime service "a" "ann" (some "old") world).1.records ≡ world.records)
    × ((purge runtime service "a" (some "old") world).0 ≡ err precondition_failed)
    × ((purge runtime service "a" (some "old") world).1.records ≡ world.records)
stale_etag_refused_example =
    stale_etag_refused runtime service "a" "ann" "old" patch first_record world stored alive
      (λ h. ground (arith, string_eq.beq_iff "e" "old"))

abbrev again : RecordCreate
again = record {
  namespace = "default";
  key = "k";
  value = object end_fields;
  metadata = object end_fields;
  owner = "ann";
  idempotency_key = some "once";
  tags = [];
  expires_at = none;
  ttl_seconds = none;
}

once_leads : get "once" world.records.idempotency ≡ some "a"
unfolding Store.create get set
once_leads = refl

tags_pass : validate_tags (normalize_tags again.tags) ≡ ok tt
unfolding validate_tags normalize_tags
tags_pass = refl

metadata_passes : check_metadata_size runtime service.settings again.metadata ≡ ok tt
unfolding check_metadata_size
metadata_passes = refl

no_expiry : (resolve_expiry runtime none none service.settings world).0 ≡ ok none
unfolding resolve_expiry resolve_at
no_expiry = refl

create-replay_example :
    ((create runtime service again world).0 ≡ ok first_record)
    × ((create runtime service again world).1.records ≡ world.records)
    × ((create runtime service again world).1.events ≡ world.events)
create-replay_example =
    create-replay runtime service again "once" "a" first_record world none tags_pass metadata_passes
      no_expiry refl once_leads stored refl refl

abbrev empty_world : World
empty_world = record world { records = empty_store }

abbrev fresh : RecordCreate
fresh = record again { idempotency_key = none }

abbrev fresh_record : RecordData
fresh_record = new_record runtime fresh none 1002 "u0"

fresh_created : (create runtime service fresh empty_world).0 ≡ ok fresh_record
unfolding create Store.create get set validate_tags normalize_tags check_metadata_size
    resolve_expiry resolve_at Repo.count_by_owner Store.count_items count Repo.create audited
fresh_created = refl

create-IsWithin_example :
    IsWithin runtime service "ann" 2 (create runtime service fresh empty_world).1
create-IsWithin_example =
    create-IsWithin runtime service fresh fresh_record empty_world refl (λ h. ground arith)
      fresh_created

abbrev anything : RecordFilter
anything = record {
  namespace = none;
  key_prefix = some "k";
  owner = some "ann";
  tags = none;
  created_after = none;
  created_before = none;
  updated_after = none;
  updated_before = none;
  include_deleted = false;
  include_expired = false;
}

abbrev one_page : Page RecordData
one_page = record { items = first_record ∷ []; total = 1; limit = 1; offset = 0 }

listed : (list runtime service anything (negsuc 4) (pos 0) world).0 ≡ ok one_page
unfolding list Store.sort count Store.create get set Store.insert_sorted
listed = refl

list-IsListing_example : IsListing anything 1000 world.records one_page
list-IsListing_example =
    list-IsListing runtime service anything (negsuc 4) (pos 0) one_page world listed

abbrev operations : List Operation
operations = unknown_op ∷ create_op (err value_error) ∷ delete_op (ok "z") none ∷ []

abbrev answers : List Outcome
answers = failed 0 "INVALID_REQUEST" ∷ failed 1 "INVALID_REQUEST" ∷ failed 2 "NOT_FOUND" ∷ []

answered : (bulk runtime service operations "ann" world).0 ≡ ok answers
unfolding bulk get Store.create set audited code
answered = refl

bulk_answers_example :
    (length operations ≤ batch_max service.settings)
    × (map index_of answers ≡ numbered 0 operations)
bulk_answers_example = bulk_answers runtime service "ann" operations answers world answered
