-- ===== src/Memory/Files.antt =====
-- `InMemoryFileObjectRepository` of src/rescs/repositories/memory.py.
use rescs.Prelude.{
  leb, true, take, Option, String, ◌==◌, string_eq, ℕ, ◌+◌, Bool, not, ◌&&◌, ◌||◌, none, List, [],
  ◌∷◌, filter, if◌then◌else◌, is_some, some,
}
use rescs.Errors.{not_found}
use rescs.Action.{Action, pure, raise, gets, ◌>>=◌}
use rescs.Dict.{values}
use rescs.Domain.{FileObjectData, file_is_expired, Datetime, Page}
use rescs.Memory.Records.{is_wanted, has_tags, in_window, expiry_leb}
use rescs.Memory.Store
use rescs.Memory.Store.{Item, sort}
use rescs.World.{Runtime, World, utcnow, on_files}

instance abbrev pub file_item : Item FileObjectData
file_item = record {
  id = λ f. f.id;
  idempotency_key = λ f. f.idempotency_key;
  updated_at = λ f. f.updated_at;
}

unfoldable pub live : FileObjectData → ℕ → Bool
unfolding file_is_expired
live f now = not (is_some f.deleted_at) && not (file_is_expired f now)

-- The test of `count_by_owner` and of `bytes_by_owner`.
unfoldable pub owned_by : String → Bool → ℕ → FileObjectData → Bool
unfolding file_is_expired
owned_by owner include_deleted now f =
    f.owner == owner
    && (include_deleted || not (is_some f.deleted_at))
    && not (file_is_expired f now)

abbrev pub total_bytes : List FileObjectData → ℕ
total_bytes [] = 0
total_bytes (f ∷ fs) = f.size + total_bytes fs

-- `size_min is not None and f.size < size_min`, and the like for the most, negated.
abbrev pub is_at_least : Option ℕ → ℕ → Bool
is_at_least none size = true
is_at_least (some least) size = leb least size

abbrev pub is_at_most : Option ℕ → ℕ → Bool
is_at_most none size = true
is_at_most (some most) size = leb size most

-- The arguments of `list`, but for the page.
pub record FileFilter : Type 0 where
  pub owner : Option String
  pub tags : Option (List String)
  pub mime_type : Option String
  pub size_min : Option ℕ
  pub size_max : Option ℕ
  pub created_after : Option Datetime
  pub created_before : Option Datetime
  pub updated_after : Option Datetime
  pub updated_before : Option Datetime
  pub include_deleted : Bool
  pub include_expired : Bool

-- `predicate` of `list`.
unfoldable pub list_matches : FileFilter → ℕ → FileObjectData → Bool
unfolding in_window file_is_expired
list_matches q now f =
    is_wanted q.owner f.owner
    && has_tags q.tags f.tags
    && is_wanted q.mime_type f.mime_type
    && is_at_least q.size_min f.size
    && is_at_most q.size_max f.size
    && in_window f.created_at q.created_after q.created_before
    && in_window f.updated_at q.updated_after q.updated_before
    && (q.include_deleted || not (is_some f.deleted_at))
    && (q.include_expired || not (file_is_expired f now))

-- The test of `list_deleted`.
unfoldable pub deleted_matches : Option String → FileObjectData → Bool
deleted_matches owner f = is_some f.deleted_at && is_wanted owner f.owner

-- `key=lambda i: (ensure_utc(i.expires_at), i.id)`
abbrev pub by_expiry : FileObjectData → FileObjectData → Bool
by_expiry a b = expiry_leb a.expires_at b.expires_at a.id b.id

-- A file has no natural key.
unfoldable pub create : FileObjectData → Action World FileObjectData
unfolding on_files
create f = on_files (Store.create f none)

unfoldable pub update : FileObjectData → Action World FileObjectData
unfolding on_files
update f = on_files (Store.update f none)

unfoldable pub delete : String → Action World (Unit {0})
unfolding on_files Store.delete
delete id = on_files (Store.delete id)

unfoldable pub get_including_deleted : String → Action World FileObjectData
unfolding on_files Store.fetch
get_including_deleted id = on_files (Store.fetch id)

module _ (rt : Runtime) where
  unfoldable pub get : String → Action World FileObjectData
  unfolding utcnow on_files live Store.fetch
  get id = do
    item ← on_files (Store.fetch id)
    now ← utcnow rt
    if live item now then pure item else raise not_found

  unfoldable pub count_by_owner : String → Bool → Action World ℕ
  unfolding utcnow owned_by
  count_by_owner owner include_deleted = do
    now ← utcnow rt
    gets λ w. Store.count_items (owned_by owner include_deleted now) w.files

  unfoldable pub bytes_by_owner : String → Bool → Action World ℕ
  unfolding utcnow owned_by
  bytes_by_owner owner include_deleted = do
    now ← utcnow rt
    gets λ w. total_bytes (filter (owned_by owner include_deleted now) (values w.files.items))

  unfoldable pub list : FileFilter → ℕ → ℕ → Action World (Page FileObjectData)
  unfolding utcnow list_matches Store.page Store.count_items
  list f limit offset = do
    now ← utcnow rt
    gets λ w. record {
      items = Store.page (list_matches f now) limit offset w.files;
      total = Store.count_items (list_matches f now) w.files;
      limit = limit;
      offset = offset;
    }

unfoldable pub find_by_idempotency_key : String → Action World (Option FileObjectData)
unfolding on_files Store.find_by_idempotency_key
find_by_idempotency_key key = on_files (Store.find_by_idempotency_key key)

unfoldable pub list_deleted : Option String → ℕ → ℕ → Action World (Page FileObjectData)
unfolding deleted_matches Store.page Store.count_items
list_deleted owner limit offset = gets λ w. record {
  items = Store.page (deleted_matches owner) limit offset w.files;
  total = Store.count_items (deleted_matches owner) w.files;
  limit = limit;
  offset = offset;
}

unfoldable pub list_expired : ℕ → ℕ → Action World (List FileObjectData)
unfolding file_is_expired
list_expired before limit =
    gets λ w.
      take limit (sort by_expiry (filter (λ f. file_is_expired f before) (values w.files.items)))
