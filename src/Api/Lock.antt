-- ===== src/Api/Lock.antt =====
-- The owner lock on the routes that take the id of a record.
use rescs.Prelude.{
  String, string_eq, ◌≡◌, ◌≢◌, refl, false, Bool-cases, inl, inr, Option, some, ◌+◌, arith,
  is_empty,
}
use rescs.Errors.{err, forbidden, not_found}
use rescs.Dict.{get}
use rescs.Domain.{RecordData}
use rescs.Memory.Store
use rescs.Memory.Records as Repo
use rescs.Memory.Records.{live}
use rescs.Security.{assert_principal_is_owner}
use rescs.World.{Runtime, World, on_records, utcnow}
use rescs.Services.Common.{Settings, Service}
use rescs.Services.Records.Payload.{RecordUpdate}
use rescs.Services.Records.Update as Update
use rescs.Services.Records.Lifecycle as Lifecycle
use rescs.Api.Requests.{Caller, parse_etag}
use rescs.Api.Records.{
  authorize, authorized_record, authorized_record_including_deleted, get_record, update_record,
  delete_record, restore_record, purge_record,
}
use rescs.Api.Denied.{IsDenied, bind-IsDenied, ticked-IsDenied}

module _ (rt : Runtime) (svc : Service) (settings : Settings) (caller : Caller) where
  authorize_refused :
      (r : RecordData) (v : World)
      → is_empty settings.api_key_owner ≡ false
      → r.owner ≢ settings.api_key_owner
      → authorize rt svc settings caller r v ≡ (err forbidden, v)
  unfolding authorize assert_principal_is_owner
  authorize_refused r v locked other =
      ground (arith, locked, string_eq.beq_iff r.owner settings.api_key_owner)

  fetched_refused :
      (id : String) (w : World) (r : RecordData)
      → get id w.records.items ≡ some r
      → is_empty settings.api_key_owner ≡ false
      → r.owner ≢ settings.api_key_owner
      → authorized_record_including_deleted rt svc settings caller id w ≡ (err forbidden, w)
  unfolding authorized_record_including_deleted Repo.get_including_deleted on_records Store.fetch
  fetched_refused id w r there locked other =
      ground (arith, there, authorize_refused r w locked other)

  found_refused :
      (id : String) (w : World) (r : RecordData)
      → get id w.records.items ≡ some r
      → is_empty settings.api_key_owner ≡ false
      → r.owner ≢ settings.api_key_owner
      → IsDenied (authorized_record rt svc settings caller id w) w
  unfolding authorized_record Repo.get on_records Store.fetch utcnow
  found_refused id w r there locked other = elim (Bool-cases (live r (rt.clock w.ticks))) [
    | inl alive ↦
        ticked-IsDenied (authorized_record rt svc settings caller id w) w
          (record w { ticks = w.ticks + 1 }) forbidden
          (ground (
            arith,
            there,
            alive,
            authorize_refused r (record w { ticks = w.ticks + 1 }) locked other,
          ))
          refl refl refl refl refl refl
    | inr gone ↦
        ticked-IsDenied (authorized_record rt svc settings caller id w) w
          (record w { ticks = w.ticks + 1 }) not_found (ground (arith, there, gone)) refl refl refl
          refl refl refl
  ]

  -- With an owner lock, the routes that take the id of a record turn away who asks for the record of
  -- another owner: `get_record`, `update_record`, `delete_record`, `restore_record` and `purge_record`
  -- raise an error with the status 401, 403 or 404, and leave every repository and the object store
  -- as they were.
  pub lock_protects_records :
      (id : String) (w : World) (r : RecordData) (p : RecordUpdate) (if_match : Option String)
      → get id w.records.items ≡ some r
      → is_empty settings.api_key_owner ≡ false
      → r.owner ≢ settings.api_key_owner
      → IsDenied (get_record rt svc settings caller id w) w
        × IsDenied (update_record rt svc settings caller id p if_match w) w
        × IsDenied (delete_record rt svc settings caller id if_match w) w
        × IsDenied (restore_record rt svc settings caller id if_match w) w
        × IsDenied (purge_record rt svc settings caller id if_match w) w
  unfolding get_record update_record delete_record restore_record purge_record
  lock_protects_records id w r p if_match there locked other =
      let found = found_refused id w r there locked other in
      let fetched =
        ticked-IsDenied (authorized_record_including_deleted rt svc settings caller id w) w w
          forbidden (fetched_refused id w r there locked other) refl refl refl refl refl refl in
      (
        found,
        bind-IsDenied (authorized_record rt svc settings caller id)
            (λ _. Update.update rt svc id p (parse_etag if_match)) w found,
        bind-IsDenied (authorized_record rt svc settings caller id)
            (λ _. Lifecycle.delete rt svc id "system" (parse_etag if_match)) w found,
        bind-IsDenied (authorized_record_including_deleted rt svc settings caller id)
            (λ _. Lifecycle.restore rt svc id (parse_etag if_match)) w fetched,
        bind-IsDenied (authorized_record_including_deleted rt svc settings caller id)
            (λ _. Lifecycle.purge rt svc id (parse_etag if_match)) w fetched,
      )
