-- ===== src/Services/Records/Invariant.antt =====
-- That no operation of `RecordService` breaks the store of records, however it ends.
pub mod Operations
pub mod Batch
pub mod Commands
use mathlib.Core.Path.{subst}
use rescs.Prelude.{
  not, String, ◌≡◌, arith, string_eq, nat_eq, ◌==◌, ℕ, Bool, true, false, Option, none, some, List,
  [], ◌∷◌, sym, leb, ltb, is_some,
}
use rescs.Prelude.Int.{ℤ}
use rescs.Errors.{Error, conflict, precondition_failed, quota_exceeded, invalid_request}
use rescs.Action.{Action, pure, raise, ◌>>=◌, ◌>>◌}
use rescs.Domain.{RecordData, Datetime}
use rescs.Memory.Store
use rescs.Memory.Store.{Store}
use rescs.Memory.Store.Invariant.{
  IsIndexed, create-IsIndexed, update-IsIndexed, delete-IsIndexed, drop_natural-IsIndexed,
}
use rescs.Memory.Records as Repo
use rescs.Memory.Records.{record_item, live}
use rescs.World.{Runtime, World, utcnow, uuid4, on_records}
use rescs.Services.Common.{Service, LogEntry, audited, best_effort}
use rescs.Services.Common.Laws.{audited_silent}
use rescs.Services.Expiry.{resolve_expiry, resolve_at}
use rescs.Services.Keeps.{
  Keeps, Keeps-bind, Keeps-lift, Keeps-if, Keeps-on_error, Keeps-raise_if, Keeps-handle, Keeps-pure,
  Keeps-raise,
}
use rescs.Services.Records.Audited.{audited_ok, audited_error, with_target, check_etag, max_records}
use rescs.Services.Records.Payload.{RecordCreate, RecordUpdate}
use rescs.Services.Records.Create as Create
use rescs.Services.Records.Update as Update
use rescs.Services.Records.Lifecycle as Lifecycle

-- The store of records is as `_InMemoryStore` means it to be.
abbrev pub IsSound : World → Type 0
IsSound w = IsIndexed w.records

-- An action that does not touch the records keeps the property.
pub same_records :
    {A : Type 0} (m : Action World A)
    → ((w : World) → (m w).1.records ≡ w.records)
    → Keeps IsSound m
same_records m same = record { keeps = λ w h. subst IsIndexed (sym (same w)) h }

on_records-Keeps :
    {A : Type 0} (m : Action (Store RecordData) A)
    → ((s : Store RecordData) → IsIndexed s → IsIndexed (m s).1)
    → Keeps IsSound (on_records m)
unfolding on_records
on_records-Keeps m keeps = record { keeps = λ w h. keeps w.records h }

module _ (rt : Runtime) (svc : Service) where
  pub utcnow-Keeps : Keeps IsSound (utcnow rt)
  unfolding utcnow
  utcnow-Keeps = record { keeps = λ w h. h }

  pub uuid4-Keeps : Keeps IsSound (uuid4 rt)
  unfolding uuid4
  uuid4-Keeps = record { keeps = λ w h. h }

  pub audited-Keeps : (e : LogEntry) → Keeps IsSound (audited rt svc e)
  audited-Keeps e = same_records (audited rt svc e) (λ w. (audited_silent rt svc e w).1)

  pub update-Keeps : (r : RecordData) → Keeps IsSound (Repo.update r)
  unfolding Repo.update
  update-Keeps r =
      on_records-Keeps (Store.update r (some (r.namespace, r.key)))
        (update-IsIndexed r (some (r.namespace, r.key)))

  pub delete-Keeps : (id : String) → Keeps IsSound (Repo.delete id)
  unfolding Repo.delete
  delete-Keeps id = on_records-Keeps (Store.delete id) (delete-IsIndexed id)

  pub fetch-Keeps : (id : String) → Keeps IsSound (on_records (Store.fetch id))
  unfolding Store.fetch
  fetch-Keeps id = on_records-Keeps (Store.fetch id) (λ s h. ground arith)

  pub natural-Keeps :
      (ns key : String) → Keeps IsSound (on_records (Store.get_by_natural_key ns key))
  unfolding Store.get_by_natural_key
  natural-Keeps ns key = on_records-Keeps (Store.get_by_natural_key ns key) (λ s h. h)

  pub find_by_key-Keeps : (key : String) → Keeps IsSound (Repo.find_by_idempotency_key key)
  unfolding Repo.find_by_idempotency_key Store.find_by_idempotency_key
  find_by_key-Keeps key = on_records-Keeps (Store.find_by_idempotency_key key) (λ s h. h)

  pub get-Keeps : (id : String) → Keeps IsSound (Repo.get rt id)
  unfolding Repo.get
  get-Keeps id = same_records (Repo.get rt id) (λ w. ground arith)

  pub if_live-Keeps : (r : Option RecordData) → Keeps IsSound (Repo.if_live rt r)
  unfolding Repo.if_live
  if_live-Keeps none = Keeps-pure none
  if_live-Keeps (some r) = same_records (Repo.if_live rt (some r)) (λ w. ground arith)

  pub by_key-Keeps : (ns key : String) → Keeps IsSound (Repo.get_by_namespace_key rt ns key)
  unfolding Repo.get_by_namespace_key
  by_key-Keeps ns key = Keeps-bind (natural-Keeps ns key) (λ r. if_live-Keeps r)

  pub drop_stale-Keeps :
      (r : RecordData) (occupant : Option RecordData)
      → Keeps IsSound (Repo.drop_stale rt r occupant)
  unfolding Repo.drop_stale
  drop_stale-Keeps r none = Keeps-pure tt
  drop_stale-Keeps r (some occupant) = Keeps-bind utcnow-Keeps (λ now.
      Keeps-if (live occupant now) (Keeps-pure tt) (
        on_records-Keeps (Store.drop_natural r.namespace r.key)
          (drop_natural-IsIndexed r.namespace r.key)))

  pub insert-Keeps : (r : RecordData) → Keeps IsSound (Repo.create rt r)
  unfolding Repo.create
  insert-Keeps r = Keeps-bind (natural-Keeps r.namespace r.key) (λ occupant.
      Keeps-bind (drop_stale-Keeps r occupant) (λ _.
        on_records-Keeps (Store.create r (some (r.namespace, r.key)))
          (create-IsIndexed r (some (r.namespace, r.key)))))

  pub count-Keeps : (owner : String) → Keeps IsSound (Repo.count_by_owner rt owner false)
  unfolding Repo.count_by_owner
  count-Keeps owner = same_records (Repo.count_by_owner rt owner false) (λ w. ground arith)

  pub best_effort-Keeps :
      {A : Type 0} {m : Action World A} → Keeps IsSound m → Keeps IsSound (best_effort m)
  best_effort-Keeps h = record { keeps = h.keeps }

  pub resolve_expiry-Keeps :
      (t : Option Datetime) (ttl : Option ℤ) → Keeps IsSound (resolve_expiry rt t ttl svc.settings)
  unfolding resolve_expiry
  resolve_expiry-Keeps (some t) (some ttl) = Keeps-raise invalid_request
  resolve_expiry-Keeps (some t) none =
      Keeps-bind utcnow-Keeps (λ now. Keeps-lift (resolve_at now (some t) none svc.settings))
  resolve_expiry-Keeps none ttl =
      Keeps-bind utcnow-Keeps (λ now. Keeps-lift (resolve_at now none ttl svc.settings))

  pub check_etag-Keeps :
      (r : RecordData) (expected : Option String) → Keeps IsSound (check_etag r expected)
  check_etag-Keeps r none = Keeps-pure tt
  check_etag-Keeps r (some etag) = Keeps-raise_if (not (r.etag == etag)) precondition_failed

  pub expired_now-Keeps : (moment : Option ℕ) → Keeps IsSound (Create.expired_now rt svc moment)
  unfolding Create.expired_now
  expired_now-Keeps none = Keeps-pure false
  expired_now-Keeps (some moment) = Keeps-bind utcnow-Keeps (λ now. Keeps-pure (leb moment now))

  pub reclaim_occupant-Keeps :
      (occupant : Option RecordData) → Keeps IsSound (Create.reclaim_occupant rt svc occupant)
  unfolding Create.reclaim_occupant
  reclaim_occupant-Keeps none = Keeps-pure tt
  reclaim_occupant-Keeps (some occupant) = Keeps-if (is_some occupant.deleted_at) (Keeps-pure tt) (
      Keeps-bind (expired_now-Keeps occupant.expires_at)
        (λ expired. Keeps-if expired (delete-Keeps occupant.id) (Keeps-pure tt)))

  pub replay_existing-Keeps :
      (existing : Option RecordData) → Keeps IsSound (Create.replay_existing rt svc existing)
  unfolding Create.replay_existing
  replay_existing-Keeps none = Keeps-pure none
  replay_existing-Keeps (some existing) =
      Keeps-if (is_some existing.deleted_at) (Keeps-raise conflict) (
        Keeps-bind (expired_now-Keeps existing.expires_at) (λ expired.
          Keeps-if expired (Keeps-bind (delete-Keeps existing.id) (λ _. Keeps-pure none))
            (Keeps-pure (some existing))))

  pub replay-Keeps : (key : Option String) → Keeps IsSound (Create.replay rt svc key)
  unfolding Create.replay
  replay-Keeps none = Keeps-pure none
  replay-Keeps (some key) = Keeps-bind (find_by_key-Keeps key) replay_existing-Keeps

  pub check_quota-Keeps : (owner : String) → Keeps IsSound (Create.check_quota rt svc owner)
  unfolding Create.check_quota
  check_quota-Keeps owner = Keeps-if (max_records svc.settings == 0) (Keeps-pure tt) (
      Keeps-bind (count-Keeps owner)
        (λ count. Keeps-raise_if (leb (max_records svc.settings) count) quota_exceeded))

  pub take_back-Keeps :
      (over : Bool) (id : String) → Keeps IsSound (Create.take_back rt svc over id)
  take_back-Keeps false id = Keeps-pure tt
  take_back-Keeps true id =
      Keeps-bind (best_effort-Keeps (delete-Keeps id)) (λ _. Keeps-raise quota_exceeded)

  pub quota_guard-Keeps : (owner id : String) → Keeps IsSound (Create.quota_guard rt svc owner id)
  unfolding Create.quota_guard
  quota_guard-Keeps owner id = Keeps-if (max_records svc.settings == 0) (Keeps-pure tt) (
      Keeps-bind (count-Keeps owner)
        (λ count. take_back-Keeps (ltb (max_records svc.settings) count) id))
