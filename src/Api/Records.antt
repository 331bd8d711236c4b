-- ===== src/Api/Records.antt =====
-- The routes of src/rescs/api/routers/records.py.
use rescs.Prelude.{
  String, ◌==◌, string_eq, Option, none, some, List, [], ◌∷◌, if◌then◌else◌, or_else, truthy,
}
use rescs.Prelude.Int.{ℤ}
use rescs.Errors.{Result, ok, err, key_error}
use rescs.Action.{Action, pure, lift, ◌>>=◌, ◌>>◌}
use rescs.Domain.{RecordData, Page}
use rescs.Memory.Records as Repo
use rescs.Memory.Records.{RecordFilter, RecordSearch}
use rescs.Security.{enforce_owner, scoped_query_owner, assert_principal_is_owner}
use rescs.World.{Runtime, World}
use rescs.Services.Common.{Settings, Service}
use rescs.Services.Records.Payload.{RecordCreate, RecordUpdate}
use rescs.Services.Records.Create as Create
use rescs.Services.Records.Update as Update
use rescs.Services.Records.Lifecycle as Lifecycle
use rescs.Services.Records.Listing as Listing
use rescs.Services.Records.Bulk.{
  Operation, Outcome, create_op, put_op, delete_op, restore_op, purge_op, unknown_op, bulk,
}
use rescs.Api.Requests.{
  Caller, parse_etag, scope_namespace, scope_owner, check_device, validate_create,
}

-- `BulkItem` of src/rescs/schemas/record.py.
pub record BulkItem : Type 0 where
  pub op : String
  pub id : Option String
  pub payload : Option RecordCreate
  pub if_match : Option String

-- What `bulk` of the service reads of an entry: `entry["record"]` and `entry["id"]`.
abbrev pub entry_record : Option RecordCreate → Result RecordCreate
entry_record none = err key_error
entry_record (some p) = validate_create p

abbrev pub entry_id : Option String → Result String
entry_id none = err key_error
entry_id (some id) = ok id

abbrev pub entry_match : Option String → Option String
entry_match none = none
entry_match (some text) = parse_etag (some text)

unfoldable pub operation_of : BulkItem → Option RecordCreate → Operation
unfolding validate_create
operation_of item payload =
    if item.op == "create"
    then create_op (entry_record payload)
    else if item.op == "put"
    then put_op (entry_record payload) (entry_match item.if_match)
    else if item.op == "delete"
    then delete_op (entry_id item.id) (entry_match item.if_match)
    else if item.op == "restore"
    then restore_op (entry_id item.id) (entry_match item.if_match)
    else if item.op == "purge"
    then purge_op (entry_id item.id) (entry_match item.if_match)
    else unknown_op

-- The query of a listing that only `list` or only `search` reads is in both.
abbrev pub search_of : RecordFilter → String → RecordSearch
search_of f query = record {
  query = query;
  namespace = f.namespace;
  owner = f.owner;
  tags = f.tags;
  include_deleted = f.include_deleted;
  include_expired = f.include_expired;
}

module _ (rt : Runtime) (svc : Service) (settings : Settings) (caller : Caller) where
  -- The owner and the namespace of a payload, as a route sets them.
  unfoldable pub assign : RecordCreate → Result RecordCreate
  unfolding enforce_owner scope_namespace scope_owner
  assign p = elim (enforce_owner (some p.owner) caller.principal settings.api_key_owner) [
    | err e ↦ err e
    | ok owner ↦ elim (scope_namespace caller.device (some p.namespace)) [
      | err e ↦ err e
      | ok namespace ↦ elim (scope_owner caller.device (some owner)) [
        | err e ↦ err e
        | ok scoped ↦
            ok
              (record p { namespace = or_else namespace p.namespace; owner = or_else scoped owner })
      ]
    ]
  ]

  unfoldable pub create_record : RecordCreate → Action World RecordData
  unfolding assign Create.create
  create_record payload = do p ← lift (assign payload); Create.create rt svc p

  unfoldable pub put_record : RecordCreate → Option String → Action World RecordData
  unfolding assign Update.put parse_etag
  put_record payload if_match = do
    p ← lift (assign payload)
    Update.put rt svc p (parse_etag if_match)

  -- `_page`, for a query that is not empty or none.
  unfoldable pub page_for : RecordFilter → ℤ → ℤ → Option String → Action World (Page RecordData)
  unfolding Listing.list Listing.search
  page_for f limit offset none = Listing.list rt svc f limit offset
  page_for f limit offset (some text) = Listing.search rt svc (search_of f text) limit offset

  unfoldable pub page : RecordFilter → Option String → ℤ → ℤ → Action World (Page RecordData)
  unfolding page_for
  page f query limit offset = page_for f limit offset (truthy query)

  unfoldable pub list_records :
      RecordFilter → Option String → ℤ → ℤ → Action World (Page RecordData)
  unfolding scoped_query_owner scope_namespace scope_owner page
  list_records f query limit offset = do
    own ← lift (scoped_query_owner f.owner caller.principal settings.api_key_owner)
    namespace ← lift (scope_namespace caller.device f.namespace)
    owner ← lift (scope_owner caller.device (some own))
    page (record f { namespace = namespace; owner = owner }) query limit offset

  -- The two checks of `_authorized_record` and of `_authorized_record_including_deleted`.
  unfoldable pub authorize : RecordData → Action World RecordData
  unfolding assert_principal_is_owner
  authorize r = do
    lift (assert_principal_is_owner r.owner settings.api_key_owner)
    lift (check_device caller.device r.owner r.namespace)
    pure r

  unfoldable pub authorized_record : String → Action World RecordData
  unfolding Repo.get authorize
  authorized_record id = Repo.get rt id >>= authorize

  unfoldable pub authorized_record_including_deleted : String → Action World RecordData
  unfolding Repo.get_including_deleted authorize
  authorized_record_including_deleted id = Repo.get_including_deleted id >>= authorize

  unfoldable pub get_record : String → Action World RecordData
  unfolding authorized_record
  get_record id = authorized_record id

  unfoldable pub update_record : String → RecordUpdate → Option String → Action World RecordData
  unfolding authorized_record Update.update parse_etag
  update_record id payload if_match =
      authorized_record id >> Update.update rt svc id payload (parse_etag if_match)

  unfoldable pub delete_record : String → Option String → Action World (Unit {0})
  unfolding authorized_record Lifecycle.delete parse_etag
  delete_record id if_match =
      authorized_record id >> Lifecycle.delete rt svc id "system" (parse_etag if_match)

  unfoldable pub restore_record : String → Option String → Action World RecordData
  unfolding authorized_record_including_deleted Lifecycle.restore parse_etag
  restore_record id if_match =
      authorized_record_including_deleted id >> Lifecycle.restore rt svc id (parse_etag if_match)

  unfoldable pub purge_record : String → Option String → Action World (Unit {0})
  unfolding authorized_record_including_deleted Lifecycle.purge parse_etag
  purge_record id if_match =
      authorized_record_including_deleted id >> Lifecycle.purge rt svc id (parse_etag if_match)

  -- The record of an item, with its owner and its namespace set.
  unfoldable pub assign_item : Option RecordCreate → Result (Option RecordCreate)
  unfolding assign
  assign_item none = ok none
  assign_item (some p) = elim (assign p) [ ok q ↦ ok (some q) | err e ↦ err e ]

  -- The loop of `bulk_records`, which raises before the service is called.
  unfoldable pub read_items : List BulkItem → Result (List Operation)
  unfolding assign_item operation_of
  read_items [] = ok []
  read_items (item ∷ items) = elim (assign_item item.payload) [
    | err e ↦ err e
    | ok payload ↦ elim (read_items items) [
      | err e ↦ err e
      | ok operations ↦ ok (operation_of item payload ∷ operations)
    ]
  ]

  unfoldable pub bulk_records : List BulkItem → Action World (List Outcome)
  unfolding read_items bulk
  bulk_records items = do
    operations ← lift (read_items items)
    bulk rt svc operations caller.principal
