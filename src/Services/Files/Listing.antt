-- ===== src/Services/Files/Listing.antt =====
-- The listings of `FileService` and its cleanup of expired files.
use rescs.Prelude.{String, ℕ, ◌+◌, Option, none, List, [], ◌∷◌, length}
use rescs.Prelude.Int.{ℤ}
use rescs.Errors.{Error, not_found}
use rescs.Action.{Action, pure, raise, handle, ◌>>=◌, ◌>>◌}
use rescs.Domain.{FileObjectData, Page}
use rescs.Memory.Files as Repo
use rescs.Memory.Files.{FileFilter}
use rescs.World.{Runtime, World, utcnow}
use rescs.Services.Common.{Service, LogEntry, audited, clamp_pagination}
use rescs.Services.Files.Shared.{purge_row}

-- The entry that a cleanup leaves.
abbrev pub cleanup_entry : String → LogEntry
cleanup_entry actor = record {
  operation = "file.cleanup";
  resource_type = "file";
  resource_id = none;
  owner = actor;
  outcome = "ok";
  error_code = none;
}

-- `except NotFoundError: continue`
abbrev pub skip_missing : Error → Action World ℕ
skip_missing not_found = pure 0
skip_missing e = raise e

-- One round of the loop: what is added to the count.
unfoldable pub remove_one : FileObjectData → Action World ℕ
unfolding purge_row
remove_one item w = handle (purge_row item w) (λ _. pure 1) skip_missing

unfoldable pub remove_each : List FileObjectData → Action World ℕ
unfolding remove_one
remove_each [] = pure 0
remove_each (item ∷ items) = do one ← remove_one item; more ← remove_each items; pure (one + more)

module _ (rt : Runtime) (svc : Service) where
  unfoldable pub list : FileFilter → ℤ → ℤ → Action World (Page FileObjectData)
  unfolding Repo.list clamp_pagination
  list f limit offset = let (l, o) = clamp_pagination limit offset in Repo.list rt f l o

  unfoldable pub list_deleted : Option String → ℤ → ℤ → Action World (Page FileObjectData)
  unfolding Repo.list_deleted clamp_pagination
  list_deleted owner limit offset =
      let (l, o) = clamp_pagination limit offset in Repo.list_deleted owner l o

  unfoldable pub count_expired : ℕ → Action World ℕ
  unfolding utcnow Repo.list_expired
  count_expired limit = do
    now ← utcnow rt
    expired ← Repo.list_expired now limit
    pure (length expired)

  unfoldable pub cleanup_expired : String → ℕ → Action World ℕ
  unfolding utcnow Repo.list_expired remove_each
  cleanup_expired actor limit = do
    now ← utcnow rt
    expired ← Repo.list_expired now limit
    purged ← remove_each expired
    audited rt svc (cleanup_entry actor)
    pure purged
