-- ===== src/Services/Records/Invariant/Operations.antt =====
-- The operations of `RecordService`, one by one.
use rescs.Prelude.{
  arith, ℕ, List, [], ◌∷◌, ◌+◌, String, string_eq, nat_eq, ℕ, not, ◌||◌, Option, none, some,
  is_some, or_else,
}
use rescs.Errors.{Error, conflict, invalid_request, precondition_failed}
use rescs.Action.{Action, pure}
use rescs.Domain.{RecordData}
use rescs.Domain.Tags.{normalize_tags, validate_tags}
use rescs.Memory.Records as Repo
use rescs.World.{Runtime, World}
use rescs.Services.Common.{Service, check_metadata_size}
use rescs.Services.Keeps.{
  Keeps, Keeps-bind, Keeps-lift, Keeps-if, Keeps-on_error, Keeps-raise_if, Keeps-handle, Keeps-pure,
  Keeps-raise,
}
use rescs.Services.Records.Audited.{success_entry, error_entry, with_target}
use rescs.Services.Records.Payload.{RecordCreate, RecordUpdate}
use rescs.Services.Records.Create as Create
use rescs.Services.Records.Create.{new_record}
use rescs.Services.Records.Update as Update
use rescs.Services.Records.Lifecycle as Lifecycle
use rescs.Services.Records.Listing as Listing
use rescs.Services.Records.Invariant
use rescs.Services.Records.Invariant.{
  IsSound, same_records, utcnow-Keeps, uuid4-Keeps, audited-Keeps, get-Keeps, by_key-Keeps,
  insert-Keeps, resolve_expiry-Keeps, check_etag-Keeps, replay-Keeps, reclaim_occupant-Keeps,
  check_quota-Keeps, quota_guard-Keeps, natural-Keeps, fetch-Keeps,
}

skip_missing-Keeps : (e : Error) → Keeps IsSound (Listing.skip_missing e)
skip_missing-Keeps e = same_records (Listing.skip_missing e) (λ w. ground arith)

module _ (rt : Runtime) (svc : Service) where
  create_new-Keeps :
      (p : RecordCreate) (expires_at : Option ℕ)
      → Keeps IsSound (Create.create_new rt svc p expires_at)
  unfolding Create.create_new Create.reclaim_expired_occupant Repo.find_occupant
  create_new-Keeps p expires_at =
      Keeps-bind
        (Keeps-bind (natural-Keeps rt svc p.namespace p.key) (reclaim_occupant-Keeps rt svc))
        (λ _. Keeps-bind (check_quota-Keeps rt svc p.owner) (λ _.
          Keeps-bind (utcnow-Keeps rt svc) (λ now. Keeps-bind (uuid4-Keeps rt svc) (λ id.
            Keeps-bind (insert-Keeps rt svc (new_record rt p expires_at now id)) (λ created.
              Keeps-bind (quota_guard-Keeps rt svc p.owner created.id) (λ _.
                Keeps-bind (audited-Keeps rt svc (success_entry "record.create" created))
                  (λ _. Keeps-pure created)))))))

  create_unless-Keeps :
      (p : RecordCreate) (expires_at : Option ℕ) (existing : Option RecordData)
      → Keeps IsSound (Create.create_unless rt svc p expires_at existing)
  create_unless-Keeps p expires_at none = create_new-Keeps p expires_at
  create_unless-Keeps p expires_at (some existing) = Keeps-pure existing

  pub create-Keeps : (p : RecordCreate) → Keeps IsSound (Create.create rt svc p)
  unfolding Create.create Create.create_body
  create-Keeps p =
      Keeps-on_error (λ e. audited-Keeps rt svc (error_entry "record.create" none p.owner e))
        (Keeps-bind (Keeps-lift (validate_tags (normalize_tags p.tags))) (λ _.
          Keeps-bind (Keeps-lift (check_metadata_size rt svc.settings p.metadata)) (λ _.
            Keeps-bind (resolve_expiry-Keeps rt svc p.expires_at p.ttl_seconds) (λ expires_at.
              Keeps-bind (replay-Keeps rt svc p.idempotency_key)
                (λ existing. create_unless-Keeps p expires_at existing)))))

  replace-Keeps :
      (p : RecordCreate) (expected : Option String) (existing : RecordData)
      → Keeps IsSound (Update.replace rt svc p expected existing)
  unfolding Update.replace
  replace-Keeps p expected existing = Keeps-bind (check_etag-Keeps rt svc existing expected) (λ _.
      Keeps-bind (Keeps-lift (validate_tags (normalize_tags p.tags))) (λ _.
        Keeps-bind (Keeps-lift (check_metadata_size rt svc.settings p.metadata)) (λ _.
          Keeps-bind (resolve_expiry-Keeps rt svc p.expires_at p.ttl_seconds) (λ expires_at.
            Keeps-bind (utcnow-Keeps rt svc) (λ now.
              Keeps-bind
                (Invariant.update-Keeps rt svc
                  (Update.replacement rt svc p existing expires_at now))
                (λ replaced.
                  Keeps-bind (audited-Keeps rt svc (success_entry "record.put" replaced))
                    (λ _. Keeps-pure replaced)))))))

  put_on-Keeps :
      (p : RecordCreate) (expected : Option String) (existing : Option RecordData)
      → Keeps IsSound (Update.put_on rt svc p expected existing)
  put_on-Keeps p expected none =
      Keeps-bind (Keeps-raise_if (is_some expected) precondition_failed) (λ _. create-Keeps p)
  put_on-Keeps p expected (some existing) = replace-Keeps p expected existing

  pub put-Keeps :
      (p : RecordCreate) (expected : Option String) → Keeps IsSound (Update.put rt svc p expected)
  unfolding Update.put
  put-Keeps p expected =
      Keeps-on_error (λ e. audited-Keeps rt svc (error_entry "record.put" none p.owner e))
        (Keeps-bind (by_key-Keeps rt svc p.namespace p.key) (put_on-Keeps p expected))

  updated_expiry-Keeps :
      (p : RecordUpdate) (existing : RecordData)
      → Keeps IsSound (Update.updated_expiry rt svc p existing)
  unfolding Update.updated_expiry
  updated_expiry-Keeps p existing =
      Keeps-if (is_some p.expires_at || is_some p.ttl_seconds)
        (resolve_expiry-Keeps rt svc p.expires_at p.ttl_seconds) (Keeps-pure existing.expires_at)

  pub update-Keeps :
      (id : String) (p : RecordUpdate) (expected : Option String)
      → Keeps IsSound (Update.update rt svc id p expected)
  unfolding Update.update
  update-Keeps id p expected =
      Keeps-on_error (λ e. audited-Keeps rt svc (error_entry "record.update" none "system" e))
        (Keeps-bind (get-Keeps rt svc id) (λ r.
          Keeps-bind (check_etag-Keeps rt svc r expected) (λ _.
            Keeps-bind (Keeps-raise_if (Update.is_blank rt svc p) invalid_request) (λ _.
              Keeps-bind (Keeps-lift (validate_tags (Update.updated_tags rt svc p r))) (λ _.
                Keeps-bind
                  (Keeps-lift (check_metadata_size rt svc.settings (or_else p.metadata r.metadata)))
                  (λ _. Keeps-bind (updated_expiry-Keeps p r) (λ expires_at.
                    Keeps-bind (utcnow-Keeps rt svc) (λ now.
                      Keeps-bind
                        (Invariant.update-Keeps rt svc (Update.changed rt svc p r expires_at now))
                        (λ result.
                          Keeps-bind (audited-Keeps rt svc (success_entry "record.update" result))
                            (λ _. Keeps-pure result))))))))))

  with_target-Keeps :
      {A : Type 0} (operation : String) {m : Action World RecordData}
      {rest : RecordData → Action World A}
      → Keeps IsSound m
      → ((r : RecordData) → Keeps IsSound (rest r))
      → Keeps IsSound (with_target rt svc operation m rest)
  with_target-Keeps operation {m} {rest} first body = record {
    keeps = λ w h.
        Keeps-handle (m w) _ _ (first.keeps w h)
          (λ r.
            Keeps-on_error (λ e. audited-Keeps rt svc (error_entry operation (some r) "system" e))
              (body r))
          (λ e.
            Keeps-on_error (λ f. audited-Keeps rt svc (error_entry operation none "system" f))
              (Keeps-raise e));
  }

  pub delete-Keeps :
      (id actor : String) (expected : Option String)
      → Keeps IsSound (Lifecycle.delete rt svc id actor expected)
  unfolding Lifecycle.delete Lifecycle.delete_target
  delete-Keeps id actor expected = with_target-Keeps "record.delete" (get-Keeps rt svc id) (λ r.
      Keeps-bind (check_etag-Keeps rt svc r expected) (λ _.
        Keeps-bind (utcnow-Keeps rt svc) (λ updated. Keeps-bind (utcnow-Keeps rt svc) (λ deleted.
          Keeps-bind (Invariant.update-Keeps rt svc (Lifecycle.tombstone r updated deleted actor))
            (λ _.
              audited-Keeps rt svc
                (success_entry "record.delete" (Lifecycle.tombstone r updated deleted actor)))))))

  pub restore-Keeps :
      (id : String) (expected : Option String)
      → Keeps IsSound (Lifecycle.restore rt svc id expected)
  unfolding Lifecycle.restore Lifecycle.restore_target Repo.get_including_deleted
  restore-Keeps id expected = with_target-Keeps "record.restore" (fetch-Keeps rt svc id) (λ r.
      Keeps-bind (Keeps-raise_if (not (is_some r.deleted_at)) invalid_request) (λ _.
        Keeps-bind (check_etag-Keeps rt svc r expected) (λ _.
          Keeps-bind (by_key-Keeps rt svc r.namespace r.key) (λ occupant.
            Keeps-bind (Keeps-raise_if (Lifecycle.is_other rt svc r occupant) conflict) (λ _.
              Keeps-bind (utcnow-Keeps rt svc) (λ now.
                Keeps-bind (Invariant.update-Keeps rt svc (Lifecycle.revived r now)) (λ result.
                  Keeps-bind (audited-Keeps rt svc (success_entry "record.restore" result))
                    (λ _. Keeps-pure result))))))))

  pub purge-Keeps :
      (id : String) (expected : Option String) → Keeps IsSound (Lifecycle.purge rt svc id expected)
  unfolding Lifecycle.purge Lifecycle.purge_target Repo.get_including_deleted
  purge-Keeps id expected = with_target-Keeps "record.purge" (fetch-Keeps rt svc id) (λ r.
      Keeps-bind (check_etag-Keeps rt svc r expected) (λ _.
        Keeps-bind (Invariant.delete-Keeps rt svc id)
          (λ _. audited-Keeps rt svc (success_entry "record.purge" r))))

  remove_one-Keeps : (item : RecordData) → Keeps IsSound (Listing.remove_one rt svc item)
  unfolding Listing.remove_one
  remove_one-Keeps item = record {
    keeps = λ w h.
        Keeps-handle (Repo.delete item.id w) (λ _. pure 1) Listing.skip_missing
          ((Invariant.delete-Keeps rt svc item.id).keeps w h) (λ _. Keeps-pure 1)
          skip_missing-Keeps;
  }

  remove_each-Keeps : (items : List RecordData) → Keeps IsSound (Listing.remove_each rt svc items)
  unfolding Listing.remove_each
  remove_each-Keeps [] = Keeps-pure 0
  remove_each-Keeps (item ∷ items) =
      Keeps-bind (remove_one-Keeps item)
        (λ one. Keeps-bind (remove_each-Keeps items) (λ more. Keeps-pure (one + more)))

  list_expired-Keeps : (before limit : ℕ) → Keeps IsSound (Repo.list_expired rt before limit)
  unfolding Repo.list_expired
  list_expired-Keeps before limit =
      same_records (Repo.list_expired rt before limit) (λ w. ground arith)

  pub cleanup_expired-Keeps :
      (actor : String) (limit : ℕ) → Keeps IsSound (Listing.cleanup_expired rt svc actor limit)
  unfolding Listing.cleanup_expired
  cleanup_expired-Keeps actor limit = Keeps-bind (utcnow-Keeps rt svc) (λ now.
      Keeps-bind (list_expired-Keeps now limit) (λ stale.
        Keeps-bind (remove_each-Keeps stale) (λ count.
          Keeps-bind (audited-Keeps rt svc (Listing.cleanup_entry actor)) (λ _. Keeps-pure count))))
