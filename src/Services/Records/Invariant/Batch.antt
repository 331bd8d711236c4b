-- ===== src/Services/Records/Invariant/Batch.antt =====
-- A batch of operations, and each of its results.
use rescs.Prelude.{String, ℕ, List, [], ◌∷◌, ◌+◌, ltb, length, arith}
use rescs.Errors.{Error, invalid_request}
use rescs.Action.{pure}
use rescs.Memory.Records as Repo
use rescs.World.{Runtime}
use rescs.Services.Common.{Service, check_owner}
use rescs.Services.Keeps.{Keeps, Keeps-bind, Keeps-lift, Keeps-raise_if, Keeps-handle, Keeps-pure}
use rescs.Services.Records.Bulk.{
  Operation, create_op, put_op, delete_op, restore_op, purge_op, unknown_op, done, failed, caught,
  apply, attempt, attempt_all, bulk, batch_max, bulk_entry,
}
use rescs.Services.Records.Invariant.{IsSound, same_records, audited-Keeps, get-Keeps, fetch-Keeps}
use rescs.Services.Records.Invariant.Operations.{
  create-Keeps, put-Keeps, delete-Keeps, restore-Keeps, purge-Keeps,
}

caught-Keeps : (index : ℕ) (e : Error) → Keeps IsSound (caught index e)
unfolding caught
caught-Keeps index e = same_records (caught index e) (λ w. ground arith)

module _ (rt : Runtime) (svc : Service) (actor : String) where
  apply-Keeps :
      (index : ℕ) (operation : Operation) → Keeps IsSound (apply rt svc actor index operation)
  unfolding apply Repo.get_including_deleted
  apply-Keeps index (create_op payload) =
      Keeps-bind (Keeps-lift payload)
        (λ p. Keeps-bind (create-Keeps rt svc p) (λ r. Keeps-pure (done index "created" r.id)))
  apply-Keeps index (put_op payload expected) =
      Keeps-bind (Keeps-lift payload)
        (λ p. Keeps-bind (put-Keeps rt svc p expected) (λ r. Keeps-pure (done index "put" r.id)))
  apply-Keeps index (delete_op key expected) = Keeps-bind (Keeps-lift key) (λ id.
      Keeps-bind (get-Keeps rt svc id) (λ target.
        Keeps-bind (Keeps-lift (check_owner svc.settings target.owner)) (λ _.
          Keeps-bind (delete-Keeps rt svc id actor expected)
            (λ _. Keeps-pure (done index "deleted" id)))))
  apply-Keeps index (restore_op key expected) = Keeps-bind (Keeps-lift key) (λ id.
      Keeps-bind (fetch-Keeps rt svc id) (λ target.
        Keeps-bind (Keeps-lift (check_owner svc.settings target.owner)) (λ _.
          Keeps-bind (restore-Keeps rt svc id expected)
            (λ r. Keeps-pure (done index "restored" r.id)))))
  apply-Keeps index (purge_op key expected) = Keeps-bind (Keeps-lift key) (λ id.
      Keeps-bind (fetch-Keeps rt svc id) (λ target.
        Keeps-bind (Keeps-lift (check_owner svc.settings target.owner)) (λ _.
          Keeps-bind (purge-Keeps rt svc id expected) (λ _. Keeps-pure (done index "purged" id)))))
  apply-Keeps index unknown_op = Keeps-pure (failed index "INVALID_REQUEST")

  attempt-Keeps :
      (index : ℕ) (operation : Operation) → Keeps IsSound (attempt rt svc actor index operation)
  unfolding attempt
  attempt-Keeps index operation = record {
    keeps = λ w h.
        Keeps-handle (apply rt svc actor index operation w) pure (caught index)
          ((apply-Keeps index operation).keeps w h) Keeps-pure (caught-Keeps index);
  }

  attempt_all-Keeps :
      (index : ℕ) (operations : List Operation)
      → Keeps IsSound (attempt_all rt svc actor index operations)
  unfolding attempt_all
  attempt_all-Keeps index [] = Keeps-pure []
  attempt_all-Keeps index (operation ∷ operations) =
      Keeps-bind (attempt-Keeps index operation)
        (λ r. Keeps-bind (attempt_all-Keeps (index + 1) operations) (λ rs. Keeps-pure (r ∷ rs)))

  pub bulk-Keeps : (operations : List Operation) → Keeps IsSound (bulk rt svc operations actor)
  unfolding bulk
  bulk-Keeps operations =
      Keeps-bind (Keeps-raise_if (ltb (batch_max svc.settings) (length operations)) invalid_request)
        (λ _. Keeps-bind (attempt_all-Keeps 0 operations) (λ results.
          Keeps-bind (audited-Keeps rt svc (bulk_entry actor)) (λ _. Keeps-pure results)))
