-- ===== src/Services/Records/Lifecycle/Restore.antt =====
-- `restore` undoes `delete`.
use rescs.Prelude.{String, string_eq, ◌≡◌, refl, true, Option, none, some, arith, ◌+◌, ℕ}
use mathlib.Core.Path.{subst}
use rescs.Errors.{ok}
use rescs.Dict.{get, contains}
use rescs.Domain.{RecordData}
use rescs.Memory.Store
use rescs.Memory.Store.Invariant.{IsIndexed}
use rescs.Memory.Store.Effects.{
  IsKeyed, update-IsKeyed, update_returns, update_writes, update_names,
}
use rescs.Memory.Records as Repo
use rescs.Memory.Records.{live, record_item}
use rescs.Memory.Records.Laws.{tick, live-deleted, including_deleted_found}
use rescs.Services.Common.Laws.{on_error_ok}
use rescs.Services.Records.Audited.{audited_error}
use rescs.World.{Runtime, World}
use rescs.Services.Common.{Service}
use rescs.Services.Common.Laws.{audited_silent}
use rescs.Services.Records.Audited.{success_entry}
use rescs.Services.Records.Lifecycle.{
  tombstone, revived, delete, delete_target, restore, restore_target,
}
use rescs.Services.Records.Lifecycle.SoftDelete.{delete_ok, delete_target_records}

module _ (rt : Runtime) (svc : Service) where
  -- The lookup that `restore` makes finds the tombstone itself, which is not live.
  no_occupant :
      (w : World) (t : RecordData) (d : ℕ)
      → t.deleted_at ≡ some d
      → Store.get_by_natural_key t.namespace t.key w.records ≡ (ok (some t), w.records)
      → Repo.get_by_namespace_key rt t.namespace t.key w ≡ (ok none, tick w)
  unfolding Repo.get_by_namespace_key
  no_occupant w t d gone named = rw named (rw (live-deleted t d (rt.clock w.ticks) gone) refl)

  -- A tombstone that has its natural key and its idempotency key can be restored.
  pub restore_target_lem :
      (w : World) (t : RecordData) (d : ℕ)
      → t.deleted_at ≡ some d
      → contains t.id w.records.items ≡ true
      → Store.get_by_natural_key t.namespace t.key w.records ≡ (ok (some t), w.records)
      → IsKeyed t w.records
      → let back = revived t (rt.clock (w.ticks + 1)) in
        ((restore_target rt svc none t w).0 ≡ ok back)
        × (get t.id (restore_target rt svc none t w).1.records.items ≡ some back)
  unfolding restore_target Repo.update
  restore_target_lem w t d gone there named keyed =
      let back = revived t (rt.clock (w.ticks + 1)) in
      let s' = Store.update back (some (t.namespace, t.key)) w.records in
      ground (
        arith,
        no_occupant w t d gone named,
        update_returns back (some (t.namespace, t.key)) w.records there
            (record { at_key = keyed.at_key }),
        update_writes back t.namespace t.key w.records there,
        audited_silent rt svc (success_entry "record.restore" back)
            (record w { records = s'.1; ticks = w.ticks + 1 + 1 }),
      )

  restore-eq :
      (id : String) (t : RecordData) (w : World) (back : RecordData)
      → get id w.records.items ≡ some t
      → (restore_target rt svc none t w).0 ≡ ok back
      → restore rt svc id none w ≡ restore_target rt svc none t w
  unfolding restore
  restore-eq id t w back there done = rw (including_deleted_found id t w there) (
      on_error_ok (audited_error rt svc "record.restore" (some t) "system")
        (restore_target rt svc none t) w back done)

  -- A stored record that `delete` has hidden comes back by a `restore` right after it, which returns
  -- the record that was there but for its version, two on, and the time of its last update; that
  -- record is stored under the id again.
  pub restore-delete :
      (id actor : String) (expected : Option String) (r : RecordData) (w : World)
      → IsIndexed w.records
      → get id w.records.items ≡ some r
      → (delete rt svc id actor expected w).0 ≡ ok tt
      → let w' = (delete rt svc id actor expected w).1 in
        let back : RecordData = record r {
          version = r.version + 1 + 1;
          updated_at = rt.clock (w'.ticks + 1);
          deleted_at = none;
          deleted_by = none;
        } in
        ((restore rt svc id none w').0 ≡ ok back)
        × (get id (restore rt svc id none w').1.records.items ≡ some back)
  restore-delete id actor expected r w valid there done =
      let own = valid.own_id id r there in
      let (ran, same) = delete_ok rt svc actor expected w id r there done in
      let (updated, recs) = delete_target_records rt svc actor expected (tick w) r ran in
      let t = tombstone r (rt.clock (w.ticks + 1)) (rt.clock (w.ticks + 1 + 1)) actor in
      let w1 = (delete_target rt svc actor expected r (tick w)).1 in
      let listed : contains r.id w.records.items ≡ true = ground (arith) in
      let stored : get r.id w1.records.items ≡ some t =
        rw recs (update_writes t r.namespace r.key w.records listed) in
      let back =
        restore_target_lem w1 t (rt.clock (w.ticks + 1 + 1)) refl (ground (arith, stored))
          (rw recs (update_names t r.namespace r.key w.records listed))
          (rw recs (update-IsKeyed t (some (r.namespace, r.key)) w.records updated)) in
      rw same (
        rw (restore-eq id t w1 _ (subst (λ k. get k w1.records.items ≡ some t) own stored) back.0) (
          back.0,
          subst
              (λ k.
                get k (restore_target rt svc none t w1).1.records.items
                ≡ some (revived t (rt.clock (w1.ticks + 1))))
              own back.1,
        ))
