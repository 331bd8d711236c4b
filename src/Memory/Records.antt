-- ===== src/Memory/Records.antt =====
-- `InMemoryRecordRepository` of src/rescs/repositories/memory.py.
pub mod Laws
use text.Mathlib.Text.{starts_with, find?}
use rescs.Prelude.{
  String, ◌==◌, string_eq, ℕ, Bool, true, not, ◌&&◌, ◌||◌, Option, none, some, List, take, filter,
  all, ltb, leb, if◌then◌else◌, is_some, text_leb, nat_eq,
}
use rescs.Errors.{not_found}
use rescs.Action.{Action, pure, raise, gets, ◌>>=◌, ◌>>◌}
use rescs.Dict.{values}
use rescs.Domain.{Datetime, ensure_utc, RecordData, is_expired, Page}
use rescs.Domain.Tags.{member}
use rescs.Memory.Store
use rescs.Memory.Store.{Item, Store, sort}
use rescs.World.{Runtime, World, utcnow, on_records}

instance abbrev pub record_item : Item RecordData
record_item = record {
  id = λ r. r.id;
  idempotency_key = λ r. r.idempotency_key;
  updated_at = λ r. r.updated_at;
}

-- `_live`: neither deleted nor expired.
unfoldable pub live : RecordData → ℕ → Bool
unfolding is_expired
live r now = not (is_some r.deleted_at) && not (is_expired r now)

abbrev pub is_at_least : ℕ → Option Datetime → Bool
is_at_least moment none = true
is_at_least moment (some t) = not (ltb moment (ensure_utc t))

abbrev pub is_earlier : ℕ → Option Datetime → Bool
is_earlier moment none = true
is_earlier moment (some t) = not (leb (ensure_utc t) moment)

-- `_in_window`, at a stored instant.
unfoldable pub in_window : ℕ → Option Datetime → Option Datetime → Bool
unfolding ensure_utc
in_window moment after before = is_at_least moment after && is_earlier moment before

-- The arguments of `list`, but for the page.
pub record RecordFilter : Type 0 where
  pub namespace : Option String
  pub key_prefix : Option String
  pub owner : Option String
  pub tags : Option (List String)
  pub created_after : Option Datetime
  pub created_before : Option Datetime
  pub updated_after : Option Datetime
  pub updated_before : Option Datetime
  pub include_deleted : Bool
  pub include_expired : Bool

-- `wanted is None or value == wanted`
abbrev pub is_wanted : Option String → String → Bool
is_wanted none value = true
is_wanted (some wanted) value = value == wanted

abbrev pub has_prefix : Option String → String → Bool
has_prefix none key = true
has_prefix (some p) key = starts_with key p

-- `tags is None or set(tags) <= set(own)`
abbrev pub has_tags : Option (List String) → List String → Bool
has_tags none own = true
has_tags (some tags) own = all (λ t. member t own) tags

-- `predicate` of `list`.
unfoldable pub list_matches : RecordFilter → ℕ → RecordData → Bool
unfolding in_window is_expired
list_matches f now r =
    is_wanted f.namespace r.namespace
    && has_prefix f.key_prefix r.key
    && is_wanted f.owner r.owner
    && has_tags f.tags r.tags
    && in_window r.created_at f.created_after f.created_before
    && in_window r.updated_at f.updated_after f.updated_before
    && (f.include_deleted || not (is_some r.deleted_at))
    && (f.include_expired || not (is_expired r now))

-- The arguments of `search`, but for the page.
pub record RecordSearch : Type 0 where
  pub query : String
  pub namespace : Option String
  pub owner : Option String
  pub tags : Option (List String)
  pub include_deleted : Bool
  pub include_expired : Bool

-- `predicate` of `search`, with `str.lower` and `json.dumps` of the runtime.
unfoldable pub search_matches : Runtime → RecordSearch → ℕ → RecordData → Bool
unfolding is_expired
search_matches rt q now r =
    is_wanted q.namespace r.namespace
    && is_wanted q.owner r.owner
    && has_tags q.tags r.tags
    && (q.include_deleted || not (is_some r.deleted_at))
    && (q.include_expired || not (is_expired r now))
    && (is_some (find? (rt.lower r.key) (rt.lower q.query))
        || is_some (find? (rt.lower (rt.dumps r.value r.metadata)) (rt.lower q.query)))

-- The test of `list_deleted`.
unfoldable pub deleted_matches : Option String → Option String → RecordData → Bool
deleted_matches namespace owner r =
    is_some r.deleted_at && is_wanted namespace r.namespace && is_wanted owner r.owner

-- The test of `count_by_owner`.
unfoldable pub owned_by : String → Bool → ℕ → RecordData → Bool
unfolding is_expired
owned_by owner include_deleted now r =
    r.owner == owner && (include_deleted || not (is_some r.deleted_at)) && not (is_expired r now)

-- The order of `list_expired`: by the time of expiry, then by id.
abbrev pub expiry_leb : Option ℕ → Option ℕ → String → String → Bool
expiry_leb (some x) (some y) a b = ltb x y || (x == y && text_leb a b)
expiry_leb _ _ a b = true

abbrev pub by_expiry : RecordData → RecordData → Bool
by_expiry a b = expiry_leb a.expires_at b.expires_at a.id b.id

module _ (rt : Runtime) where
  -- The natural key of an occupant that is deleted or expired is given up.
  unfoldable pub drop_stale : RecordData → Option RecordData → Action World (Unit {0})
  unfolding utcnow on_records live Store.drop_natural
  drop_stale r none = pure tt
  drop_stale r (some occupant) = do
    now ← utcnow rt
    if live occupant now then pure tt else on_records (Store.drop_natural r.namespace r.key)

  unfoldable pub create : RecordData → Action World RecordData
  unfolding drop_stale on_records
  create r = do
    occupant ← on_records (Store.get_by_natural_key r.namespace r.key)
    drop_stale r occupant
    on_records (Store.create r (some (r.namespace, r.key)))

  unfoldable pub get : String → Action World RecordData
  unfolding utcnow on_records live Store.fetch
  get id = do
    item ← on_records (Store.fetch id)
    now ← utcnow rt
    if live item now then pure item else raise not_found

  -- An occupant only if it is live.
  unfoldable pub if_live : Option RecordData → Action World (Option RecordData)
  unfolding utcnow live
  if_live none = pure none
  if_live (some item) = do now ← utcnow rt; if live item now then pure (some item) else pure none

  unfoldable pub get_by_namespace_key : String → String → Action World (Option RecordData)
  unfolding if_live on_records
  get_by_namespace_key namespace key = do
    item ← on_records (Store.get_by_natural_key namespace key)
    if_live item

  unfoldable pub list : RecordFilter → ℕ → ℕ → Action World (Page RecordData)
  unfolding utcnow list_matches Store.page Store.count_items
  list f limit offset = do
    now ← utcnow rt
    gets λ w. record {
      items = Store.page (list_matches f now) limit offset w.records;
      total = Store.count_items (list_matches f now) w.records;
      limit = limit;
      offset = offset;
    }

  unfoldable pub search : RecordSearch → ℕ → ℕ → Action World (Page RecordData)
  unfolding utcnow search_matches Store.page Store.count_items
  search q limit offset = do
    now ← utcnow rt
    gets λ w. record {
      items = Store.page (search_matches rt q now) limit offset w.records;
      total = Store.count_items (search_matches rt q now) w.records;
      limit = limit;
      offset = offset;
    }

  unfoldable pub count_by_owner : String → Bool → Action World ℕ
  unfolding utcnow owned_by
  count_by_owner owner include_deleted = do
    now ← utcnow rt
    gets λ w. Store.count_items (owned_by owner include_deleted now) w.records

  -- `now` is read and not used.
  unfoldable pub list_expired : ℕ → ℕ → Action World (List RecordData)
  unfolding utcnow is_expired
  list_expired before limit = do
    now ← utcnow rt
    gets λ w.
        take limit (sort by_expiry (filter (λ r. is_expired r before) (values w.records.items)))

unfoldable pub get_including_deleted : String → Action World RecordData
unfolding on_records Store.fetch
get_including_deleted id = on_records (Store.fetch id)

unfoldable pub find_occupant : String → String → Action World (Option RecordData)
unfolding on_records Store.get_by_natural_key
find_occupant namespace key = on_records (Store.get_by_natural_key namespace key)

unfoldable pub update : RecordData → Action World RecordData
unfolding on_records
update r = on_records (Store.update r (some (r.namespace, r.key)))

unfoldable pub delete : String → Action World (Unit {0})
unfolding on_records Store.delete
delete id = on_records (Store.delete id)

unfoldable pub find_by_idempotency_key : String → Action World (Option RecordData)
unfolding on_records Store.find_by_idempotency_key
find_by_idempotency_key key = on_records (Store.find_by_idempotency_key key)

unfoldable pub list_deleted : Option String → Option String → ℕ → ℕ → Action World (Page RecordData)
unfolding deleted_matches Store.page Store.count_items
list_deleted namespace owner limit offset = gets λ w. record {
  items = Store.page (deleted_matches namespace owner) limit offset w.records;
  total = Store.count_items (deleted_matches namespace owner) w.records;
  limit = limit;
  offset = offset;
}
