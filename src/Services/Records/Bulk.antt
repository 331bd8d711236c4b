-- ===== src/Services/Records/Bulk.antt =====
-- `bulk` of `RecordService`.
pub mod Answers
use rescs.Prelude.{String, ℕ, ◌+◌, Option, none, some, List, [], ◌∷◌, ltb, length}
use rescs.Errors.{Error, Result, ok, err, code, key_error, value_error, invalid_request}
use rescs.Action.{Action, pure, raise, lift, handle, raise_if, ◌>>=◌, ◌>>◌}
use rescs.Domain.{RecordData}
use rescs.Memory.Records as Repo
use rescs.World.{Runtime, World}
use rescs.Services.Common.{Settings, Service, LogEntry, audited, check_owner}
use rescs.Services.Records.Payload.{RecordCreate}
use rescs.Services.Records.Create as Create
use rescs.Services.Records.Update as Update
use rescs.Services.Records.Lifecycle as Lifecycle

-- An operation of a batch, as it is read from its `dict`: `RecordCreate(**operation["record"])` gives
-- a payload, a `ValueError` of its validators, or a `KeyError`; so does `operation["id"]`. The last
-- argument is `operation.get("if_match")`.
pub data Operation : Type 0 where
  create_op : Result RecordCreate → Operation
  put_op : Result RecordCreate → Option String → Operation
  delete_op : Result String → Option String → Operation
  restore_op : Result String → Option String → Operation
  purge_op : Result String → Option String → Operation
  unknown_op : Operation

-- An entry of the results, with its index: the status and the id, or the code of the error.
pub data Outcome : Type 0 where
  done : ℕ → String → String → Outcome
  failed : ℕ → String → Outcome

abbrev pub batch_max : Option Settings → ℕ
batch_max none = 100
batch_max (some s) = s.max_bulk_batch

-- The entry of `_audited_bulk`.
abbrev pub bulk_entry : String → LogEntry
bulk_entry actor = record {
  operation = "record.bulk";
  resource_type = "record";
  resource_id = none;
  owner = actor;
  outcome = "ok";
  error_code = none;
}

-- The two `except` clauses: any error but Python's `KeyError` becomes a result.
unfoldable pub caught : ℕ → Error → Action World Outcome
caught index key_error = raise key_error
caught index value_error = pure (failed index "INVALID_REQUEST")
caught index e = pure (failed index (code e))

module _ (rt : Runtime) (svc : Service) where
  -- The branches of the `try`.
  unfoldable pub apply : String → ℕ → Operation → Action World Outcome
  unfolding Create.create Update.put Lifecycle.delete Lifecycle.restore Lifecycle.purge Repo.get
      Repo.get_including_deleted
  apply actor index (create_op payload) = do
    p ← lift payload
    r ← Create.create rt svc p
    pure (done index "created" r.id)
  apply actor index (put_op payload expected) = do
    p ← lift payload
    r ← Update.put rt svc p expected
    pure (done index "put" r.id)
  apply actor index (delete_op key expected) = do
    id ← lift key
    target ← Repo.get rt id
    lift (check_owner svc.settings target.owner)
    Lifecycle.delete rt svc id actor expected
    pure (done index "deleted" id)
  apply actor index (restore_op key expected) = do
    id ← lift key
    target ← Repo.get_including_deleted id
    lift (check_owner svc.settings target.owner)
    r ← Lifecycle.restore rt svc id expected
    pure (done index "restored" r.id)
  apply actor index (purge_op key expected) = do
    id ← lift key
    target ← Repo.get_including_deleted id
    lift (check_owner svc.settings target.owner)
    Lifecycle.purge rt svc id expected
    pure (done index "purged" id)
  apply actor index unknown_op = pure (failed index "INVALID_REQUEST")

  unfoldable pub attempt : String → ℕ → Operation → Action World Outcome
  unfolding apply caught
  attempt actor index operation w = handle (apply actor index operation w) pure (caught index)

  -- The loop, from an index on.
  unfoldable pub attempt_all : String → ℕ → List Operation → Action World (List Outcome)
  unfolding attempt
  attempt_all actor index [] = pure []
  attempt_all actor index (operation ∷ operations) = do
    result ← attempt actor index operation
    results ← attempt_all actor (index + 1) operations
    pure (result ∷ results)

  unfoldable pub bulk : List Operation → String → Action World (List Outcome)
  unfolding attempt_all
  bulk operations actor = do
    raise_if (ltb (batch_max svc.settings) (length operations)) invalid_request
    results ← attempt_all actor 0 operations
    audited rt svc (bulk_entry actor)
    pure results
