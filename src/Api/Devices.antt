-- ===== src/Api/Devices.antt =====
-- A device on the routes that take the id of a file.
use rescs.Prelude.{
  String, string_eq, ◌≡◌, refl, Bool-cases, Option-cases, ◌⊎◌, inl, inr, Option, some, ℕ, ◌+◌,
  arith,
}
use rescs.Errors.{err, forbidden, not_found, unauthorized}
use rescs.Dict.{get}
use rescs.Domain.{FileObjectData}
use rescs.Memory.Store
use rescs.Memory.Files as Repo
use rescs.Memory.Files.{live}
use rescs.Security.{assert_principal_is_owner, assert_device_ownership, extract_device_id}
use rescs.World.{Runtime, World, on_files, utcnow}
use rescs.Services.Common.{Settings, Service}
use rescs.Services.Files.Lifecycle as Lifecycle
use rescs.Api.Requests.{Caller, parse_etag}
use rescs.Api.Files.{
  authorize, authorized_file, authorized_file_including_deleted, get_file_metadata, download_file,
  send, delete_file, restore_file, purge_file,
}
use rescs.Api.Denied.{IsDenied, bind-IsDenied, ticked-IsDenied}

files_unscoped :
    (owner device : String) → assert_device_ownership owner "files" device ≡ err unauthorized
unfolding assert_device_ownership extract_device_id
files_unscoped owner device = refl

abbrev pub from_device : String → String → Caller
from_device principal device = record { principal = principal; device = some device }

module _ (rt : Runtime) (svc : Service) (settings : Settings) (principal device : String) where
  authorize_refused :
      (f : FileObjectData) (v : World)
      → (authorize rt svc settings (from_device principal device) f v ≡ (err forbidden, v))
        ⊎ (authorize rt svc settings (from_device principal device) f v ≡ (err unauthorized, v))
  unfolding authorize assert_principal_is_owner
  authorize_refused f v = ground (arith, files_unscoped f.owner device)

  fetched_refused :
      (id : String) (w : World)
      → IsDenied
          (authorized_file_including_deleted rt svc settings (from_device principal device) id w)
          w
  unfolding authorized_file_including_deleted Repo.get_including_deleted on_files Store.fetch
  fetched_refused id w =
      let p =
        authorized_file_including_deleted rt svc settings (from_device principal device) id w in
      elim (Option-cases (get id w.files.items)) [
        | inl absent ↦
            ticked-IsDenied p w w not_found (ground (arith, absent)) refl refl refl refl refl refl
        | inr (f, there) ↦ elim (authorize_refused f w) [
          | inl refused ↦
              ticked-IsDenied p w w forbidden (ground (arith, there, refused)) refl refl refl refl
                refl refl
          | inr refused ↦
              ticked-IsDenied p w w unauthorized (ground (arith, there, refused)) refl refl refl
                refl refl refl
        ]
      ]

  found_refused :
      (id : String) (w : World)
      → IsDenied (authorized_file rt svc settings (from_device principal device) id w) w
  unfolding authorized_file Repo.get on_files Store.fetch utcnow
  found_refused id w =
      let p = authorized_file rt svc settings (from_device principal device) id w in
      let v = record w { ticks = w.ticks + 1 } in
      elim (Option-cases (get id w.files.items)) [
        | inl absent ↦
            ticked-IsDenied p w w not_found (ground (arith, absent)) refl refl refl refl refl refl
        | inr (f, there) ↦ elim (Bool-cases (live f (rt.clock w.ticks))) [
          | inr gone ↦
              ticked-IsDenied p w v not_found (ground (arith, there, gone)) refl refl refl refl refl
                refl
          | inl alive ↦ elim (authorize_refused f v) [
            | inl refused ↦
                ticked-IsDenied p w v forbidden (ground (arith, there, alive, refused)) refl refl
                  refl refl refl refl
            | inr refused ↦
                ticked-IsDenied p w v unauthorized (ground (arith, there, alive, refused)) refl refl
                  refl refl refl refl
          ]
        ]
      ]

  -- A request that names a device is turned away from every file, whoever owns it, so also from a file
  -- that the same device has uploaded: `get_file_metadata`, `download_file`, `delete_file`,
  -- `restore_file` and `purge_file` raise an error with the status 401, 403 or 404, and leave every
  -- repository and the object store as they were.
  pub device_reaches_no_file :
      (id : String) (w : World) (quote : String → String) (threshold : ℕ) (if_match : Option String)
      → let caller = from_device principal device in
        IsDenied (get_file_metadata rt svc settings caller id w) w
        × IsDenied (download_file rt svc settings caller quote threshold id w) w
        × IsDenied (delete_file rt svc settings caller id if_match w) w
        × IsDenied (restore_file rt svc settings caller id if_match w) w
        × IsDenied (purge_file rt svc settings caller id if_match w) w
  unfolding get_file_metadata download_file delete_file restore_file purge_file
  device_reaches_no_file id w quote threshold if_match =
      let caller = from_device principal device in
      let found = found_refused id w in
      let fetched = fetched_refused id w in
      (
        found,
        bind-IsDenied (authorized_file rt svc settings caller id)
            (send rt svc settings caller quote threshold id) w found,
        bind-IsDenied (authorized_file rt svc settings caller id)
            (λ _. Lifecycle.delete rt svc id "system" (parse_etag if_match)) w found,
        bind-IsDenied (authorized_file_including_deleted rt svc settings caller id)
            (λ _. Lifecycle.restore rt svc id (parse_etag if_match)) w fetched,
        bind-IsDenied (authorized_file_including_deleted rt svc settings caller id)
            (λ _. Lifecycle.purge rt svc id (parse_etag if_match)) w fetched,
      )
