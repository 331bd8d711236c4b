-- ===== src/Services/Records/Listing.antt =====
-- The listings of `RecordService` and its cleanup of expired records.
pub mod Bounds
use rescs.Prelude.{String, ℕ, ◌+◌, Option, none, List, [], ◌∷◌, length}
use rescs.Prelude.Int.{ℤ}
use rescs.Errors.{Error, not_found}
use rescs.Action.{Action, pure, raise, handle, ◌>>=◌, ◌>>◌}
use rescs.Domain.{RecordData, Page}
use rescs.Memory.Records as Repo
use rescs.Memory.Records.{RecordFilter, RecordSearch}
use rescs.World.{Runtime, World, utcnow}
use rescs.Services.Common.{Service, LogEntry, audited, clamp_pagination}

-- The entry that a cleanup leaves.
abbrev pub cleanup_entry : String → LogEntry
cleanup_entry actor = record {
  operation = "record.cleanup";
  resource_type = "record";
  resource_id = none;
  owner = actor;
  outcome = "ok";
  error_code = none;
}

-- `except NotFoundError: continue`
abbrev pub skip_missing : Error → Action World ℕ
skip_missing not_found = pure 0
skip_missing e = raise e

module _ (rt : Runtime) (svc : Service) where
  unfoldable pub list : RecordFilter → ℤ → ℤ → Action World (Page RecordData)
  unfolding Repo.list clamp_pagination
  list f limit offset = let (l, o) = clamp_pagination limit offset in Repo.list rt f l o

  unfoldable pub list_deleted :
      Option String → Option String → ℤ → ℤ → Action World (Page RecordData)
  unfolding Repo.list_deleted clamp_pagination
  list_deleted namespace owner limit offset =
      let (l, o) = clamp_pagination limit offset in Repo.list_deleted namespace owner l o

  unfoldable pub search : RecordSearch → ℤ → ℤ → Action World (Page RecordData)
  unfolding Repo.search clamp_pagination
  search q limit offset = let (l, o) = clamp_pagination limit offset in Repo.search rt q l o

  unfoldable pub count_expired : ℕ → Action World ℕ
  unfolding utcnow Repo.list_expired
  count_expired limit = do
    now ← utcnow rt
    expired ← Repo.list_expired rt now limit
    pure (length expired)

  -- One round of the loop: what is added to the count.
  unfoldable pub remove_one : RecordData → Action World ℕ
  unfolding Repo.delete
  remove_one item w = handle (Repo.delete item.id w) (λ _. pure 1) skip_missing

  unfoldable pub remove_each : List RecordData → Action World ℕ
  unfolding remove_one
  remove_each [] = pure 0
  remove_each (item ∷ items) = do one ← remove_one item; more ← remove_each items; pure (one + more)

  unfoldable pub cleanup_expired : String → ℕ → Action World ℕ
  unfolding utcnow Repo.list_expired remove_each
  cleanup_expired actor limit = do
    now ← utcnow rt
    expired ← Repo.list_expired rt now limit
    purged ← remove_each expired
    audited rt svc (cleanup_entry actor)
    pure purged
