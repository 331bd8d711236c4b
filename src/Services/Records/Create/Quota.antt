-- ===== src/Services/Records/Create/Quota.antt =====
-- The quota that `create` enforces.
use rescs.Prelude.{
  if◌then◌else◌, ◌+◌, sym, String, string_eq, nat_eq, ◌≡◌, ◌≢◌, ◌≤◌, ℕ, Option, false, none, some,
  arith,
}
use rescs.Errors.{ok}
use rescs.Domain.{RecordData}
use rescs.Memory.Store
use rescs.Memory.Records as Repo
use rescs.World.{Runtime, World, utcnow, uuid4}
use rescs.Action.{lift, pure, ◌>>=◌, ◌>>◌}
use rescs.Domain.Tags.{normalize_tags, validate_tags}
use rescs.Services.Expiry.{resolve_expiry}
use rescs.Services.Common.{Service, check_metadata_size}
use rescs.Services.Common.Laws.{audited_silent, audited-ticks}
use rescs.Services.Keeps.{Ends, Ends-after, Ends-carried, Ends-on_error}
use rescs.Services.Records.Audited.{audited_error, audited_ok, success_entry}
use rescs.Services.Records.Audited.{audited_error, max_records}
use rescs.Services.Records.Payload.{RecordCreate}
use rescs.Services.Records.Create.{
  quota_guard, create_new, create, create_body, reclaim_expired_occupant, check_quota, new_record,
  replay, create_unless,
}

-- How often an operation that logs reads the clock from the count of the guard on.
abbrev pub readings : Service → ℕ
readings svc = if svc.audits then 2 else 1

module _ (rt : Runtime) (svc : Service) where
  -- At the reading of the clock that is so many readings back, the owner has no more live records than
  -- the limit.
  pub record IsWithin (owner : String) (back : ℕ) (w : World) : Type 0 where
    pub tick : ℕ
    pub read : tick + back ≡ w.ticks
    pub within :
        Store.count_items (Repo.owned_by owner false (rt.clock tick)) w.records
        ≤ max_records svc.settings

  -- The guard lets a write stand only if the owner has no more records than the limit.
  pub quota_guard_bounds :
      (owner id : String) (w : World)
      → (quota_guard rt svc owner id w).0 ≡ ok tt
      → max_records svc.settings ≢ 0
      → (Store.count_items (Repo.owned_by owner false (rt.clock w.ticks)) w.records
          ≤ max_records svc.settings)
        × ((quota_guard rt svc owner id w).1.records ≡ w.records)
        × ((quota_guard rt svc owner id w).1.ticks ≡ w.ticks + 1)
  unfolding quota_guard Repo.count_by_owner
  quota_guard_bounds owner id w done limited = ground arith

  IsWithin-moved :
      (owner : String) (tick back : ℕ) (v w : World)
      → Store.count_items (Repo.owned_by owner false (rt.clock tick)) w.records
        ≤ max_records svc.settings
      → v.records ≡ w.records
      → tick + back ≡ v.ticks
      → IsWithin owner back v
  IsWithin-moved owner tick back v w h same read = record {
    tick = tick;
    read = read;
    within = rw same h;
  }

  quota_guard-Ends :
      (owner id : String)
      → max_records svc.settings ≢ 0
      → Ends (IsWithin owner 1) (quota_guard rt svc owner id)
  quota_guard-Ends owner id limited = record {
    ends = λ w a done.
        let (bound, same, ticks) = quota_guard_bounds owner id w done limited in
        IsWithin-moved owner w.ticks 1 (quota_guard rt svc owner id w).1 w bound same (sym ticks);
  }

  -- The event of a success reads the clock once more, if there is an audit service.
  IsWithin-logged :
      (owner : String) (r : RecordData) (w : World)
      → IsWithin owner 1 w
      → IsWithin owner (readings svc) ((audited_ok rt svc "record.create" r >> pure r) w).1
  IsWithin-logged owner r w h =
      let e = success_entry "record.create" r in
      IsWithin-moved owner h.tick (readings svc)
        ((audited_ok rt svc "record.create" r >> pure r) w).1 w h.within
        (ground (arith, audited_silent rt svc e w))
        (ground (arith, h.read, audited_silent rt svc e w, audited-ticks rt svc e w))

  create_new-Ends :
      (p : RecordCreate) (expires_at : Option ℕ)
      → max_records svc.settings ≢ 0
      → Ends (IsWithin p.owner (readings svc)) (create_new rt svc p expires_at)
  unfolding create_new
  create_new-Ends p expires_at limited =
      Ends-after (reclaim_expired_occupant rt svc p.namespace p.key) (λ _.
        Ends-after (check_quota rt svc p.owner) (λ _. Ends-after (utcnow rt) (λ now.
          Ends-after (uuid4 rt) (λ id.
            Ends-after (Repo.create rt (new_record rt p expires_at now id)) (λ created.
              Ends-carried (λ _. audited_ok rt svc "record.create" created >> pure created)
                (quota_guard-Ends p.owner created.id limited)
                (λ _ v. IsWithin-logged p.owner created v))))))

  fresh-Ends :
      (p : RecordCreate) (expires_at : Option ℕ) (key : Option String)
      → key ≡ none
      → max_records svc.settings ≢ 0
      → Ends
          (IsWithin p.owner (readings svc))
          (replay rt svc key >>= create_unless rt svc p expires_at)
  unfolding replay
  fresh-Ends p expires_at none without limited = record {
    ends = (create_new-Ends p expires_at limited).ends;
  }
  fresh-Ends p expires_at (some key) without limited = ground arith

  -- When the settings limit the records of an owner, a `create` with no idempotency key that returns
  -- leaves its owner with no more records than the limit, live at the reading of the clock with
  -- which the guard after the write counted them: the last reading that the call makes, or the last
  -- but one where an audit service reads it once more.
  pub create-IsWithin :
      (p : RecordCreate) (r : RecordData) (w : World)
      → p.idempotency_key ≡ none
      → max_records svc.settings ≢ 0
      → (create rt svc p w).0 ≡ ok r
      → IsWithin p.owner (readings svc) (create rt svc p w).1
  unfolding create create_body
  create-IsWithin p r w without limited done =
      (Ends-on_error (audited_error rt svc "record.create" none p.owner) (
          Ends-after (lift (validate_tags (normalize_tags p.tags))) (λ _.
            Ends-after (lift (check_metadata_size rt svc.settings p.metadata)) (λ _.
              Ends-after (resolve_expiry rt p.expires_at p.ttl_seconds svc.settings)
                (λ expires_at. fresh-Ends p expires_at p.idempotency_key without limited))))).ends
        w r done
