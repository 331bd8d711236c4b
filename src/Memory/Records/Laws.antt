-- ===== src/Memory/Records/Laws.antt =====
-- The repository of records, seen through its lookups.
use rescs.Prelude.{String, string_eq, ◌≡◌, false, none, some, arith, ◌+◌, ℕ, if◌then◌else◌, ◌≤◌}
use rescs.Errors.{ok, err, not_found}
use rescs.Dict.{get}
use rescs.Domain.{RecordData, is_expired}
use rescs.Memory.Records as Repo
use rescs.Memory.Records.{live, record_item}
use rescs.World.{Runtime, World}

-- The world after one more reading of the clock.
abbrev pub tick : World → World
tick w = record w { ticks = w.ticks + 1 }

module _ (rt : Runtime) (id : String) (w : World) where
  -- `get` finds exactly the records that are neither deleted nor expired at the instant that it reads.
  pub get_found :
      (r : RecordData)
      → get id w.records.items ≡ some r
      → Repo.get rt id w
        ≡ (if live r (rt.clock w.ticks) then (ok r, tick w) else (err not_found, tick w))
  unfolding Repo.get
  get_found r there = ground arith

  pub get_absent : get id w.records.items ≡ none → Repo.get rt id w ≡ (err not_found, w)
  unfolding Repo.get
  get_absent absent = ground arith

-- A lookup for recovery finds tombstones too.
pub including_deleted_found :
    (id : String) (r : RecordData) (w : World)
    → get id w.records.items ≡ some r
    → Repo.get_including_deleted id w ≡ (ok r, w)
unfolding Repo.get_including_deleted
including_deleted_found id r w there = ground arith

pub including_deleted_absent :
    (id : String) (w : World)
    → get id w.records.items ≡ none
    → Repo.get_including_deleted id w ≡ (err not_found, w)
unfolding Repo.get_including_deleted
including_deleted_absent id w absent = ground arith

-- A record that is deleted is not live, at any instant.
pub live-deleted : (r : RecordData) (t now : ℕ) → r.deleted_at ≡ some t → live r now ≡ false
unfolding live
live-deleted r t now h = ground arith

-- Nor does one come back to life by waiting.
pub live-later :
    (r : RecordData) (now later : ℕ) → now ≤ later → live r now ≡ false → live r later ≡ false
unfolding live is_expired
live-later r now later h dead = ground arith
