-- ===== src/Services/Records/Lifecycle/SoftDelete.antt =====
-- What `delete` does to a record, and what a reader sees afterwards.
use rescs.Memory.Records.{record_item}
use rescs.Prelude.{String, string_eq, ◌≡◌, Option, some, arith, ◌+◌, true, false, refl}
use rescs.Errors.{ok, err, not_found}
use rescs.Dict.{get}
use rescs.Domain.{RecordData}
use rescs.Memory.Store
use rescs.Memory.Records as Repo
use rescs.Services.Records.Audited.{success_entry}
use rescs.Memory.Store.Effects.{update_writes, update_cases}
use rescs.Memory.Store.Invariant.{IsIndexed}
use rescs.Memory.Records.Laws.{get_found, live-deleted, tick}
use rescs.Services.Common.{on_error}
use rescs.Services.Common.Laws.{on_error-eq-ok}
use rescs.Services.Records.Audited.{audited_error}
use rescs.Prelude.{ap, sym, ◌∙◌, Bool-cases, inl, inr}
use rescs.Memory.Records.{live}
use mathlib.Core.Path.{subst}
use rescs.World.{Runtime, World}
use rescs.Services.Common.{Service}
use rescs.Services.Common.Laws.{audited_silent}
use rescs.Services.Records.Lifecycle.{tombstone, delete, delete_target}

module _ (rt : Runtime) (svc : Service) (actor : String) (expected : Option String) where
  -- A `delete_target` that returned has made one `update` of the store, with the tombstone.
  pub delete_target_records :
      (w : World) (r : RecordData)
      → (delete_target rt svc actor expected r w).0 ≡ ok tt
      → let t = tombstone r (rt.clock w.ticks) (rt.clock (w.ticks + 1)) actor in
        let after = Store.update t (some (r.namespace, r.key)) w.records in
        (after.0 ≡ ok t) × ((delete_target rt svc actor expected r w).1.records ≡ after.1)
  unfolding delete_target Repo.update
  delete_target_records w r done =
      let t = tombstone r (rt.clock w.ticks) (rt.clock (w.ticks + 1)) actor in
      ground (
        arith,
        audited_silent rt svc (success_entry "record.delete" t) (record w {
          records = (Store.update t (some (r.namespace, r.key)) w.records).1;
          ticks = w.ticks + 1 + 1;
        }),
        update_cases t (some (r.namespace, r.key)) w.records,
      )

  -- A `delete` of a live record is `delete_target` on it, with the error logged.
  delete-eq :
      (w : World) (id : String) (r : RecordData)
      → get id w.records.items ≡ some r
      → live r (rt.clock w.ticks) ≡ true
      → delete rt svc id actor expected w
        ≡ on_error
            (audited_error rt svc "record.delete" (some r) "system")
            (delete_target rt svc actor expected r)
            (tick w)
  unfolding delete
  delete-eq w id r there alive = rw (get_found rt id w r there, alive) refl

  delete_dead :
      (w : World) (id : String) (r : RecordData)
      → get id w.records.items ≡ some r
      → live r (rt.clock w.ticks) ≡ false
      → (delete rt svc id actor expected w).0 ≡ err not_found
  unfolding delete
  delete_dead w id r there dead = rw (get_found rt id w r there, dead) refl

  pub delete_ok :
      (w : World) (id : String) (r : RecordData)
      → get id w.records.items ≡ some r
      → (delete rt svc id actor expected w).0 ≡ ok tt
      → ((delete_target rt svc actor expected r (tick w)).0 ≡ ok tt)
        × (delete rt svc id actor expected w ≡ delete_target rt svc actor expected r (tick w))
  delete_ok w id r there done = elim (Bool-cases (live r (rt.clock w.ticks))) [
    | inl alive ↦
        let e = delete-eq w id r there alive in
        let run =
          on_error-eq-ok (audited_error rt svc "record.delete" (some r) "system")
            (delete_target rt svc actor expected r) (tick w) tt (ap (λ p. p.0) (sym e) ∙ done) in
        (run.0, e ∙ run.1)
    | inr dead ↦ ground (arith, delete_dead w id r there dead)
  ]

  -- After a `delete` that returned, the record is still stored under its id: one version on, updated
  -- at one reading of the clock and deleted at the next, by the actor, and otherwise unchanged. A
  -- `get` right after it raises `NotFoundError`, whatever the clock says.
  pub get-delete :
      (w : World) (id : String) (r : RecordData)
      → IsIndexed w.records
      → get id w.records.items ≡ some r
      → (delete rt svc id actor expected w).0 ≡ ok tt
      → let w' = (delete rt svc id actor expected w).1 in
        let gone : RecordData = record r {
          version = r.version + 1;
          updated_at = rt.clock (w.ticks + 1);
          deleted_at = some (rt.clock (w.ticks + 1 + 1));
          deleted_by = some actor;
        } in
        (get id w'.records.items ≡ some gone) × ((Repo.get rt id w').0 ≡ err not_found)
  get-delete w id r valid there done =
      let own = valid.own_id id r there in
      let (ran, same) = delete_ok w id r there done in
      let t = tombstone r (rt.clock (w.ticks + 1)) (rt.clock (w.ticks + 1 + 1)) actor in
      let w' = (delete_target rt svc actor expected r (tick w)).1 in
      let stored : get id w'.records.items ≡ some t =
        subst (λ k. get k w'.records.items ≡ some t) own
          (rw ((delete_target_records (tick w) r ran).1)
            (update_writes t r.namespace r.key w.records (ground arith))) in
      rw same
        (stored, rw (get_found rt id w' t stored, live-deleted t _ (rt.clock w'.ticks) refl) refl)
