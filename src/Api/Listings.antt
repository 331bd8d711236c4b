-- ===== src/Api/Listings.antt =====
-- The owner lock on the routes that list.
use rescs.Prelude.{
  String, string_eq, ◌≡◌, refl, true, false, inl, inr, Option, none, some, ℕ, List, [], ◌∷◌, arith,
  All, is_empty, truthy, ◌⊎◌,
}
use rescs.Prelude.Int.{ℤ}
use rescs.Prelude.Slices.{All-take, All-drop}
use rescs.Errors.{Result, ok, err, unauthorized}
use rescs.Action.{Action, lift, ◌>>=◌}
use rescs.Dict.{values}
use rescs.Domain.{RecordData, FileObjectData, AuditData, Page}
use rescs.Memory.Store.Sorting.{sort-All}
use rescs.Memory.Store.Pages.{page_lem, filter-All}
use rescs.Memory.Records as RecordRepo
use rescs.Memory.Records.{RecordFilter, RecordSearch, record_item}
use rescs.Memory.Files as FileRepo
use rescs.Memory.Files.{FileFilter, file_item}
use rescs.Security.Owners.{lock_confines}
use rescs.World.{Runtime, World, utcnow}
use rescs.Services.Common.{Settings, Service, clamp_pagination}
use rescs.Services.Records.Listing as Records
use rescs.Services.Files.Listing as Files
use rescs.Services.Audit as Audit
use rescs.Services.Audit.{AuditFilter, list_events, event_matches, by_time}
use rescs.Api.Requests.{Caller, scope_namespace, scope_owner}
use rescs.Api.Records.{list_records, page, page_for, search_of}
use rescs.Api.Files.{list_files}
use rescs.Api.Admin.{list_audit, list_deleted_records, list_deleted_files}

-- A result that, if it is a page, shows only what has the owner.
abbrev pub ShowsOnly : {A : Type 0} → (A → String) → String → Result (Page A) × World → Type 0
ShowsOnly owner_of lock (ok found, w) = All (λ a. owner_of a ≡ lock) found.items
ShowsOnly owner_of lock (err e, w) = Unit

abbrev pub without_device : String → Caller
without_device principal = record { principal = principal; device = none }

All-map :
    {A : Type 0} (P Q : A → Type 0) (xs : List A) → ((x : A) → P x → Q x) → All P xs → All Q xs
All-map P Q [] f h = tt
All-map P Q (x ∷ xs) f h = (f x h.0, All-map P Q xs f h.1)

-- The filters of the listings.
record_listed :
    (f : RecordFilter) (lock : String) (now : ℕ) (r : RecordData)
    → f.owner ≡ some lock
    → RecordRepo.list_matches f now r ≡ true
    → r.owner ≡ lock
unfolding RecordRepo.list_matches
record_listed f lock now r own h = ground (arith, own, h, string_eq.beq_iff r.owner lock)

record_found :
    (rt : Runtime) (q : RecordSearch) (lock : String) (now : ℕ) (r : RecordData)
    → q.owner ≡ some lock
    → RecordRepo.search_matches rt q now r ≡ true
    → r.owner ≡ lock
unfolding RecordRepo.search_matches
record_found rt q lock now r own h = ground (arith, own, h, string_eq.beq_iff r.owner lock)

file_listed :
    (f : FileFilter) (lock : String) (now : ℕ) (x : FileObjectData)
    → f.owner ≡ some lock
    → FileRepo.list_matches f now x ≡ true
    → x.owner ≡ lock
unfolding FileRepo.list_matches
file_listed f lock now x own h = ground (arith, own, h, string_eq.beq_iff x.owner lock)

record_deleted :
    (namespace : Option String) (lock : String) (r : RecordData)
    → RecordRepo.deleted_matches namespace (some lock) r ≡ true
    → r.owner ≡ lock
unfolding RecordRepo.deleted_matches
record_deleted namespace lock r h = ground (arith, h, string_eq.beq_iff r.owner lock)

file_deleted :
    (lock : String) (x : FileObjectData)
    → FileRepo.deleted_matches (some lock) x ≡ true
    → x.owner ≡ lock
unfolding FileRepo.deleted_matches
file_deleted lock x h = ground (arith, h, string_eq.beq_iff x.owner lock)

event_listed :
    (f : AuditFilter) (lock : String) (e : AuditData)
    → f.owner ≡ some lock
    → event_matches f e ≡ true
    → e.owner ≡ lock
unfolding event_matches
event_listed f lock e own h = ground (arith, own, h, string_eq.beq_iff e.owner lock)

module _ (rt : Runtime) (svc : Service) (lock : String) where
  records_listed :
      (f : RecordFilter) (limit offset : ℤ) (w : World)
      → f.owner ≡ some lock
      → ShowsOnly (λ r. r.owner) lock (Records.list rt svc f limit offset w)
  unfolding Records.list RecordRepo.list clamp_pagination utcnow
  records_listed f limit offset w own =
      All-map _ _ _ (λ r. record_listed f lock (rt.clock w.ticks) r own)
        (page_lem (RecordRepo.list_matches f (rt.clock w.ticks)) _ _ w.records).0

  records_found :
      (q : RecordSearch) (limit offset : ℤ) (w : World)
      → q.owner ≡ some lock
      → ShowsOnly (λ r. r.owner) lock (Records.search rt svc q limit offset w)
  unfolding Records.search RecordRepo.search clamp_pagination utcnow
  records_found q limit offset w own =
      All-map _ _ _ (λ r. record_found rt q lock (rt.clock w.ticks) r own)
        (page_lem (RecordRepo.search_matches rt q (rt.clock w.ticks)) _ _ w.records).0

  files_listed :
      (f : FileFilter) (limit offset : ℤ) (w : World)
      → f.owner ≡ some lock
      → ShowsOnly (λ x. x.owner) lock (Files.list rt svc f limit offset w)
  unfolding Files.list FileRepo.list clamp_pagination utcnow
  files_listed f limit offset w own =
      All-map _ _ _ (λ x. file_listed f lock (rt.clock w.ticks) x own)
        (page_lem (FileRepo.list_matches f (rt.clock w.ticks)) _ _ w.files).0

  records_deleted :
      (namespace : Option String) (limit offset : ℤ) (w : World)
      → ShowsOnly
          (λ r. r.owner)
          lock
          (Records.list_deleted rt svc namespace (some lock) limit offset w)
  unfolding Records.list_deleted RecordRepo.list_deleted clamp_pagination
  records_deleted namespace limit offset w =
      All-map _ _ _ (record_deleted namespace lock)
        (page_lem (RecordRepo.deleted_matches namespace (some lock)) _ _ w.records).0

  files_deleted :
      (limit offset : ℤ) (w : World)
      → ShowsOnly (λ x. x.owner) lock (Files.list_deleted rt svc (some lock) limit offset w)
  unfolding Files.list_deleted FileRepo.list_deleted clamp_pagination
  files_deleted limit offset w =
      All-map _ _ _ (file_deleted lock)
        (page_lem (FileRepo.deleted_matches (some lock)) _ _ w.files).0

  events_listed :
      (f : AuditFilter) (limit offset : ℤ) (w : World)
      → f.owner ≡ some lock
      → ShowsOnly (λ e. e.owner) lock (Audit.list f limit offset w)
  unfolding Audit.list list_events clamp_pagination
  events_listed f limit offset w own = All-take _ _ _ (
      All-drop _ _ _ (
        sort-All by_time _ _ (
          All-map _ _ _ (λ e. event_listed f lock e own)
            (filter-All (event_matches f) (values w.events)))))

-- A listing that begins with the owner that it is filtered by.
scoped_only :
    {A : Type 0} (owner_of : A → String) (lock : String) (r : Result String)
    (k : String → Action World (Page A)) (w : World)
    → (r ≡ ok lock) ⊎ (r ≡ err unauthorized)
    → ShowsOnly owner_of lock (k lock w)
    → ShowsOnly owner_of lock ((lift r >>= k) w)
scoped_only owner_of lock (ok own) k w (inl same) h = ground (arith, same, h)
scoped_only owner_of lock (ok own) k w (inr same) h = ground (arith, same)
scoped_only owner_of lock (err e) k w cases h = tt

module _ (rt : Runtime) (svc : Service) (settings : Settings) (principal : String) where
  paged :
      (f : RecordFilter) (query : Option String) (limit offset : ℤ) (w : World) (lock : String)
      → f.owner ≡ some lock
      → ShowsOnly
          (λ r. r.owner)
          lock
          (page_for rt svc settings (without_device principal) f limit offset query w)
  unfolding page_for
  paged f none limit offset w lock own = records_listed rt svc lock f limit offset w own
  paged f (some text) limit offset w lock own =
      records_found rt svc lock (search_of f text) limit offset w own

  -- With an owner lock, every listing shows only what the locked owner has: the records of
  -- `list_records`, by `list` or by `search`, the files of `list_files`, the deleted ones of
  -- `list_deleted_records` and `list_deleted_files`, and the events of `list_audit`, for any filter and
  -- any page, and a request that names no device.
  pub lock_confines_listings :
      (f : RecordFilter) (query : Option String) (g : FileFilter) (a : AuditFilter)
      (namespace requested : Option String) (limit offset : ℤ) (w : World)
      → is_empty settings.api_key_owner ≡ false
      → let caller = without_device principal in
        let lock = settings.api_key_owner in
        ShowsOnly (λ r. r.owner) lock (list_records rt svc settings caller f query limit offset w)
        × ShowsOnly (λ x. x.owner) lock (list_files rt svc settings caller g limit offset w)
        × ShowsOnly
            (λ r. r.owner)
            lock
            (list_deleted_records rt svc settings caller namespace requested limit offset w)
        × ShowsOnly
            (λ x. x.owner)
            lock
            (list_deleted_files rt svc settings caller requested limit offset w)
        × ShowsOnly (λ e. e.owner) lock (list_audit rt svc settings caller a limit offset w)
  unfolding list_records page list_files list_deleted_records list_deleted_files list_audit
      scope_namespace scope_owner
  lock_confines_listings f query g a namespace requested limit offset w locked =
      let lock = settings.api_key_owner in
      let cases = λ (owner : Option String). (lock_confines owner principal lock "" locked).1 in
      (
        scoped_only _ lock _ _ w (cases f.owner)
            (paged (record f { owner = some lock }) (truthy query) limit offset w lock refl),
        scoped_only _ lock _ _ w (cases g.owner)
            (files_listed rt svc lock (record g { owner = some lock }) limit offset w refl),
        scoped_only _ lock _ _ w (cases requested)
            (records_deleted rt svc lock namespace limit offset w),
        scoped_only _ lock _ _ w (cases requested) (files_deleted rt svc lock limit offset w),
        scoped_only _ lock _ _ w (cases a.owner)
            (events_listed rt svc lock (record a { owner = some lock }) limit offset w refl),
      )
