-- ===== src/Services/Records/Invariant/Commands.antt =====
-- The operations of `RecordService` in any order.
use rescs.Prelude.{ℕ, String, Option, List, [], ◌∷◌}
use rescs.World.{Runtime, World}
use rescs.Services.Common.{Service}
use rescs.Services.Records.Payload.{RecordCreate, RecordUpdate}
use rescs.Services.Records.Create as Create
use rescs.Services.Records.Update as Update
use rescs.Services.Records.Lifecycle as Lifecycle
use rescs.Services.Records.Listing as Listing
use rescs.Services.Records.Bulk.{Operation, bulk}
use rescs.Services.Records.Invariant.{IsSound}
use rescs.Services.Records.Invariant.Batch.{bulk-Keeps}
use rescs.Services.Records.Invariant.Operations.{
  create-Keeps, put-Keeps, update-Keeps, delete-Keeps, restore-Keeps, purge-Keeps,
  cleanup_expired-Keeps,
}

-- A call of the service that may change a record.
pub data Command : Type 0 where
  created : RecordCreate → Command
  put_over : RecordCreate → Option String → Command
  updated : String → RecordUpdate → Option String → Command
  deleted : String → String → Option String → Command
  restored : String → Option String → Command
  purged : String → Option String → Command
  cleaned : String → ℕ → Command
  batch : List Operation → String → Command

module _ (rt : Runtime) (svc : Service) where
  -- The world after a call, whether it returned or raised.
  abbrev pub after : Command → World → World
  after (created p) w = (Create.create rt svc p w).1
  after (put_over p expected) w = (Update.put rt svc p expected w).1
  after (updated id p expected) w = (Update.update rt svc id p expected w).1
  after (deleted id actor expected) w = (Lifecycle.delete rt svc id actor expected w).1
  after (restored id expected) w = (Lifecycle.restore rt svc id expected w).1
  after (purged id expected) w = (Lifecycle.purge rt svc id expected w).1
  after (cleaned actor limit) w = (Listing.cleanup_expired rt svc actor limit w).1
  after (batch operations actor) w = (bulk rt svc operations actor w).1

  after-IsSound : (c : Command) (w : World) → IsSound w → IsSound (after c w)
  after-IsSound (created p) = (create-Keeps rt svc p).keeps
  after-IsSound (put_over p expected) = (put-Keeps rt svc p expected).keeps
  after-IsSound (updated id p expected) = (update-Keeps rt svc id p expected).keeps
  after-IsSound (deleted id actor expected) = (delete-Keeps rt svc id actor expected).keeps
  after-IsSound (restored id expected) = (restore-Keeps rt svc id expected).keeps
  after-IsSound (purged id expected) = (purge-Keeps rt svc id expected).keeps
  after-IsSound (cleaned actor limit) = (cleanup_expired-Keeps rt svc actor limit).keeps
  after-IsSound (batch operations actor) = (bulk-Keeps rt svc actor operations).keeps

  abbrev pub after_all : List Command → World → World
  after_all [] w = w
  after_all (c ∷ cs) w = after_all cs (after c w)

  -- Whatever calls of `create`, `put`, `update`, `delete`, `restore`, `purge`, `cleanup_expired` and
  -- `bulk` are made, in any order, returning or raising, and whatever the clock and the ids are: if
  -- in the store of records no key is listed twice, each item stands under its own id and each
  -- id of an index belongs to an item, this holds afterwards.
  pub after_all-IsSound : (cs : List Command) (w : World) → IsSound w → IsSound (after_all cs w)
  after_all-IsSound [] w h = h
  after_all-IsSound (c ∷ cs) w h = after_all-IsSound cs (after c w) (after-IsSound c w h)
