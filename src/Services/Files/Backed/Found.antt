-- ===== src/Services/Files/Backed/Found.antt =====
-- Looking a file up, by its id and by its idempotency key, as triples over the invariant.
use rescs.Prelude.{
  Option-cases, inl, inr, ◌≡◌, refl, none, some, Option, String, string_eq, nat_eq, arith, is_some,
}
use rescs.Errors.{ok, err, conflict, key_error, not_found}
use rescs.Domain.{FileObjectData}
use rescs.Dict.{get}
use rescs.Memory.Store
use rescs.Memory.Files as Repo
use rescs.Memory.Files.{file_item, live}
use rescs.World.{Runtime, World, blob_key_eq, on_files}
use rescs.Services.Triples.{
  Triple, Meets, Triple-bind, Triple-pure, Triple-raise, Triple-if, Triple-weaken,
}
use rescs.Services.Files.Quiet.{utcnow-Quiet, expired_now-Quiet}
use rescs.Services.Files.Create.{replay_existing, replay}
use rescs.Services.Files.Backed.{IsBacked, Holds, Holds-quiet}
use rescs.Services.Files.Backed.Parts.{Quiet-Triple, purge_row-Triple}

module _ (rt : Runtime) where
  fetch_eq :
      (id : String) (w : World)
      → Repo.get_including_deleted id w
        ≡ elim (get id w.files.items) [ none ↦ (err not_found, w) | some f ↦ (ok f, w) ]
  unfolding Repo.get_including_deleted on_files Store.fetch
  fetch_eq id w = ground arith

  fetch_cases :
      (id : String) (w : World)
      → IsBacked rt w
      → Meets (Holds rt) (IsBacked rt) (Repo.get_including_deleted id w)
  fetch_cases id w h = elim (Option-cases (get id w.files.items)) [
    | inl absent ↦ rw (fetch_eq id w, absent) h
    | inr (f, found) ↦
        rw (fetch_eq id w, found)
          record { sound = h; there = ground (arith, h.indexed.own_id id f found) }
  ]

  pub fetch-Triple :
      (id : String) → Triple (IsBacked rt) (Repo.get_including_deleted id) (Holds rt) (IsBacked rt)
  fetch-Triple id = record { run = fetch_cases id }

  pub get-Triple : (id : String) → Triple (IsBacked rt) (Repo.get rt id) (Holds rt) (IsBacked rt)
  unfolding Repo.get Repo.get_including_deleted
  get-Triple id = Triple-bind (fetch-Triple id) (λ f.
      Triple-weaken (λ w h. h) (λ a w h. h) (λ w h. h.sound)
        (Triple-bind (Quiet-Triple (Holds-quiet rt f) (utcnow-Quiet rt)) (λ now.
          Triple-if (live f now) (Triple-pure f (λ w h. h)) (Triple-raise not_found (λ w h. h)))))

  -- The file of an idempotency key, if there is one.
  abbrev pub HoldsAny : Option FileObjectData → World → Type 0
  HoldsAny none w = IsBacked rt w
  HoldsAny (some f) w = Holds rt f w

  pub HoldsAny-sound : (o : Option FileObjectData) (w : World) → HoldsAny o w → IsBacked rt w
  HoldsAny-sound none w h = h
  HoldsAny-sound (some f) w h = h.sound

  find_eq :
      (key : String) (w : World)
      → Repo.find_by_idempotency_key key w
        ≡ (Store.follow (get key w.files.idempotency) w.files.items, w)
  unfolding Repo.find_by_idempotency_key on_files Store.find_by_idempotency_key
  find_eq key w = refl

  follow_eq :
      (id : String) (w : World)
      → Store.follow (some id) w.files.items
        ≡ elim (get id w.files.items) [ none ↦ err key_error | some f ↦ ok (some f) ]
  follow_eq id w = refl

  follow_cases :
      (id : String) (w : World)
      → IsBacked rt w
      → Meets HoldsAny (IsBacked rt) (Store.follow (some id) w.files.items, w)
  follow_cases id w h = elim (Option-cases (get id w.files.items)) [
    | inl absent ↦ rw (follow_eq id w, absent) h
    | inr (f, found) ↦
        rw (follow_eq id w, found)
          record { sound = h; there = ground (arith, h.indexed.own_id id f found) }
  ]

  find_cases :
      (key : String) (w : World)
      → IsBacked rt w
      → Meets HoldsAny (IsBacked rt) (Repo.find_by_idempotency_key key w)
  find_cases key w h = elim (Option-cases (get key w.files.idempotency)) [
    | inl absent ↦ rw (find_eq key w, absent) h
    | inr (id, found) ↦ rw (find_eq key w, found) (follow_cases id w h)
  ]

  pub find-Triple :
      (key : String)
      → Triple (IsBacked rt) (Repo.find_by_idempotency_key key) HoldsAny (IsBacked rt)
  find-Triple key = record { run = find_cases key }

  replay_existing-Triple :
      (o : Option FileObjectData)
      → Triple (HoldsAny o) (replay_existing rt o) HoldsAny (IsBacked rt)
  unfolding replay_existing
  replay_existing-Triple none = Triple-pure none (λ w h. h)
  replay_existing-Triple (some f) =
      Triple-if (is_some f.deleted_at) (Triple-raise conflict (λ w h. h.sound)) (
        Triple-bind
          (Triple-weaken (λ w h. h) (λ a w h. h) (λ w h. h.sound)
            (Quiet-Triple (Holds-quiet rt f) (expired_now-Quiet rt f.expires_at)))
          (λ expired.
            Triple-if expired
              (Triple-bind (purge_row-Triple rt f) (λ _. Triple-pure none (λ w h. h)))
              (Triple-pure (some f) (λ w h. h))))

  pub replay-Triple :
      (key : Option String) → Triple (IsBacked rt) (replay rt key) HoldsAny (IsBacked rt)
  unfolding replay
  replay-Triple none = Triple-pure none (λ w h. h)
  replay-Triple (some key) = Triple-bind (find-Triple key) replay_existing-Triple
