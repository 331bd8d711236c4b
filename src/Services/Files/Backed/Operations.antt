-- ===== src/Services/Files/Backed/Operations.antt =====
-- The other operations of `FileService` keep the files and the blobs together.
use rescs.Prelude.{
  Bool, not, ◌≡◌, refl, none, some, Option, List, [], ◌∷◌, String, string_eq, ℕ, ◌+◌, arith,
  is_some, All, filter, ==-refl,
}
use rescs.Prelude.Slices.{All-take}
use rescs.Errors.{Error, invalid_request}
use rescs.Action.{Action, pure, ◌>>=◌}
use rescs.Domain.{FileObjectData, file_is_expired}
use rescs.Dict.{Dict, get, values, IsUnique}
use rescs.Memory.Store.{sort}
use rescs.Memory.Store.Sorting.{sort-All}
use rescs.Memory.Files as Repo
use rescs.Memory.Files.{by_expiry}
use rescs.World.{Runtime, World}
use rescs.Services.Common.{Service, audited}
use rescs.Services.Keeps.{Keeps, Keeps-handle, Keeps-bind, Keeps-pure, Keeps-raise}
use rescs.Services.Triples.{
  Triple, Triple-bind, Triple-handle, Triple-weaken, Keeps-Triple, Triple-Keeps, Triple-on_error,
}
use rescs.Services.Files.Quiet.{
  Quiet, check_etag-Quiet, check_stored-Quiet, utcnow-Quiet, audited-Quiet, Quiet-raise_if,
}
use rescs.Services.Files.Shared.{purge_row, with_target, success_entry, error_entry}
use rescs.Services.Files.Lifecycle.{
  tombstone, revived, delete_target, delete, restore_target, restore, purge_target, purge,
}
use rescs.Services.Files.Listing.{
  cleanup_entry, skip_missing, remove_one, remove_each, cleanup_expired,
}
use rescs.Services.Files.Backed.{IsBacked, Holds, IsBacked-quiet, Holds-quiet}
use rescs.Services.Files.Backed.Parts.{
  Quiet-Keeps, Quiet-Triple, purge_row-Keeps, purge_row-Triple, update-Triple,
}
use rescs.Services.Files.Backed.Found.{fetch-Triple, get-Triple}

-- A property of the values of a dict, from what its lookups return.
values-All :
    (P : FileObjectData → Type 0) (d : Dict String FileObjectData)
    → IsUnique d
    → ((id : String) (f : FileObjectData) → get id d ≡ some f → P f)
    → All P (values d)
unfolding values get
values-All P [] u h = tt
values-All P ((id, f) ∷ d) u h = (
  h id f (ground (arith, ==-refl id)),
  values-All P d u.1 (λ j g found. h j g (ground (arith, u.0, string_eq.beq_iff id j))),
)

All-filter :
    (P : FileObjectData → Type 0) (p : FileObjectData → Bool) (fs : List FileObjectData)
    → All P fs
    → All P (filter p fs)
All-filter P p [] h = tt
All-filter P p (f ∷ fs) h = ground (arith, All-filter P p fs h.1)

abbrev HasOwnPath : FileObjectData → Type 0
HasOwnPath f = f.storage_path ≡ f.id

module _ (rt : Runtime) (svc : Service) where
  error-Keeps :
      (operation : String) (target : Option FileObjectData) (e : Error)
      → Keeps (IsBacked rt) (audited rt svc (error_entry operation target "system" e))
  error-Keeps operation target e =
      Quiet-Keeps (IsBacked-quiet rt)
        (audited-Quiet rt svc (error_entry operation target "system" e))

  success-Keeps :
      (operation : String) (f : FileObjectData)
      → Keeps (IsBacked rt) (audited rt svc (success_entry operation f))
  success-Keeps operation f =
      Quiet-Keeps (IsBacked-quiet rt) (audited-Quiet rt svc (success_entry operation f))

  with_target-Keeps :
      {A : Type 0} (operation : String) {m : Action World FileObjectData}
      {rest : FileObjectData → Action World A}
      → Triple (IsBacked rt) m (Holds rt) (IsBacked rt)
      → ((f : FileObjectData) → Triple (Holds rt f) (rest f) (λ _. IsBacked rt) (IsBacked rt))
      → Keeps (IsBacked rt) (with_target rt svc operation m rest)
  with_target-Keeps operation {m} {rest} first body = Triple-Keeps (
      Triple-handle _ _ first
        (λ f.
          Triple-on_error (λ e. audited rt svc (error_entry operation (some f) "system" e)) (body f)
            (λ e. (error-Keeps operation (some f) e).keeps))
        (λ e.
          Triple-on_error (λ x. audited rt svc (error_entry operation none "system" x))
            (Keeps-Triple (Keeps-raise e)) (λ x. (error-Keeps operation none x).keeps)))

  -- A quiet action that comes before the others.
  first-Quiet :
      {A B : Type 0} (f : FileObjectData) {m : Action World A} {k : A → Action World B}
      → Quiet m
      → ((a : A) → Triple (Holds rt f) (k a) (λ _. IsBacked rt) (IsBacked rt))
      → Triple (Holds rt f) (m >>= k) (λ _. IsBacked rt) (IsBacked rt)
  first-Quiet f q rest =
      Triple-bind
        (Triple-weaken (λ w h. h) (λ a w h. h) (λ w h. h.sound) (Quiet-Triple (Holds-quiet rt f) q))
        rest

  pub delete-Keeps :
      (id actor : String) (expected : Option String)
      → Keeps (IsBacked rt) (delete rt svc id actor expected)
  unfolding delete delete_target
  delete-Keeps id actor expected = with_target-Keeps "file.delete" (get-Triple rt id) (λ f.
      first-Quiet f (check_etag-Quiet f expected) (λ _. first-Quiet f (utcnow-Quiet rt) (λ updated.
        first-Quiet f (utcnow-Quiet rt) (λ deleted.
          Triple-bind (update-Triple rt f (tombstone f updated deleted actor) refl refl refl) (λ _.
            Keeps-Triple (success-Keeps "file.delete" (tombstone f updated deleted actor)))))))

  pub restore-Keeps :
      (id : String) (expected : Option String) → Keeps (IsBacked rt) (restore rt svc id expected)
  unfolding restore restore_target
  restore-Keeps id expected = with_target-Keeps "file.restore" (fetch-Triple rt id) (λ f.
      first-Quiet f (Quiet-raise_if (not (is_some f.deleted_at)) invalid_request) (λ _.
        first-Quiet f (check_etag-Quiet f expected) (λ _. first-Quiet f (check_stored-Quiet f) (λ _.
          first-Quiet f (utcnow-Quiet rt) (λ now.
            Triple-bind (update-Triple rt f (revived f now) refl refl refl) (λ result.
              Keeps-Triple
                (Keeps-bind (success-Keeps "file.restore" result) (λ _. Keeps-pure result))))))))

  pub purge-Keeps :
      (id : String) (expected : Option String) → Keeps (IsBacked rt) (purge rt svc id expected)
  unfolding purge purge_target
  purge-Keeps id expected = with_target-Keeps "file.purge" (fetch-Triple rt id) (λ f.
      first-Quiet f (check_etag-Quiet f expected) (λ _.
        Triple-bind (purge_row-Triple rt f) (λ _. Keeps-Triple (success-Keeps "file.purge" f))))

  skip_missing-Keeps : (e : Error) → Keeps (IsBacked rt) (skip_missing e)
  skip_missing-Keeps e = record { keeps = λ w h. ground (arith, h) }

  remove_one-Keeps : (f : FileObjectData) → HasOwnPath f → Keeps (IsBacked rt) (remove_one f)
  unfolding remove_one
  remove_one-Keeps f path = record {
    keeps = λ w h.
        Keeps-handle (purge_row f w) (λ _. pure 1) skip_missing
          ((purge_row-Keeps rt f path).keeps w h) (λ _. Keeps-pure 1) skip_missing-Keeps;
  }

  remove_each-Keeps :
      (fs : List FileObjectData) → All HasOwnPath fs → Keeps (IsBacked rt) (remove_each fs)
  unfolding remove_each
  remove_each-Keeps [] h = Keeps-pure 0
  remove_each-Keeps (f ∷ fs) h =
      Keeps-bind (remove_one-Keeps f h.0)
        (λ one. Keeps-bind (remove_each-Keeps fs h.1) (λ more. Keeps-pure (one + more)))

  list_expired-Triple :
      (before limit : ℕ)
      → Triple
          (IsBacked rt)
          (Repo.list_expired before limit)
          (λ fs w. IsBacked rt w × All HasOwnPath fs)
          (IsBacked rt)
  unfolding Repo.list_expired
  list_expired-Triple before limit = record {
    run = λ w h.
        let own : All HasOwnPath (values w.files.items) =
          values-All HasOwnPath w.files.items h.indexed.unique_items
            (λ id f found. ground (arith, h.own_path id f found, h.indexed.own_id id f found)) in
        let stale = filter (λ f. file_is_expired f before) (values w.files.items) in
        (
          h,
          All-take HasOwnPath limit (sort by_expiry stale) (
              sort-All by_expiry HasOwnPath stale
                (All-filter HasOwnPath (λ f. file_is_expired f before) (values w.files.items) own)),
        );
  }

  pub cleanup_expired-Keeps :
      (actor : String) (limit : ℕ) → Keeps (IsBacked rt) (cleanup_expired rt svc actor limit)
  unfolding cleanup_expired
  cleanup_expired-Keeps actor limit = Triple-Keeps (
      Triple-bind (Quiet-Triple (IsBacked-quiet rt) (utcnow-Quiet rt)) (λ now.
        Triple-bind (list_expired-Triple now limit) (λ stale. record {
          run = λ w h.
              (Keeps-Triple (
                  Keeps-bind (remove_each-Keeps stale h.1) (λ purged.
                    Keeps-bind
                      (Quiet-Keeps (IsBacked-quiet rt) (audited-Quiet rt svc (cleanup_entry actor)))
                      (λ _. Keeps-pure purged)))).run
                w h.0;
        })))
