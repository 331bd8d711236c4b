-- ===== src/Services/Files/Backed/Parts.antt =====
-- The parts of the operations of `FileService`, as triples over the invariant.
use rescs.Prelude.{
  true, false, Bool, Bool-cases, inl, inr, ◌≡◌, none, some, List, String, string_eq, nat_eq, ℕ, ◌≢◌,
  arith,
}
use rescs.Errors.{Error, Result, ok, err}
use rescs.Action.{Action}
use rescs.Domain.{FileObjectData}
use rescs.Dict.{contains}
use rescs.Memory.Store
use rescs.Memory.Files as Repo
use rescs.Memory.Files.{file_item, live}
use rescs.Memory.Blobs as Blobs
use rescs.World.{Runtime, World, object, blob_key_eq, uuid4, on_files}
use rescs.Services.Common.{Service}
use rescs.Services.Keeps.{Keeps}
use rescs.Memory.Store.Effects.{create_atomic}
use rescs.Services.Triples.{Triple, Meets, Meets-both, Triple-bind, Triple-pure, Keeps-Triple}
use rescs.Services.Files.Quiet.{Quiet, IsQuiet, has_too_many-Quiet, has_too_much-Quiet}
use rescs.Services.Files.Shared.{purge_row, take_back, enforce_quota, has_too_many, has_too_much}
use rescs.Services.Files.Create.{insert_file}
use rescs.Services.Files.Backed.{
  IsFresh, claimed, printed, IsBacked, IsPending, IsNew, Holds, IsBacked-quiet,
}
use rescs.Services.Files.Backed.Steps.{
  IsPlaced, removed-IsBacked, removed-IsNew, IsPending-swept, made-IsNew, stored-IsPending,
  created-IsPlaced, updated-IsBacked,
}

-- A quiet action keeps what outlasts quiet ones.
abbrev pub Lasts : (World → Type 0) → Type 0
Lasts P = (v w : World) → IsQuiet v w → P w → P v

pub Quiet-Keeps :
    {A : Type 0} {P : World → Type 0} {m : Action World A} → Lasts P → Quiet m → Keeps P m
Quiet-Keeps {m} lasts q = record { keeps = λ w h. lasts (m w).1 w (q.quiet w) h }

pub Quiet-Triple :
    {A : Type 0} {P : World → Type 0} {m : Action World A}
    → Lasts P
    → Quiet m
    → Triple P m (λ _. P) P
Quiet-Triple lasts q = Keeps-Triple (Quiet-Keeps lasts q)

-- An action that never raises may promise anything for when it does.
pub record Silent {A : Type 0} (m : Action World A) : Type 0 where
  pub silent : (w : World) (e : Error) → (m w).0 ≢ err e

Meets-silent :
    {A : Type 0} (P R : World → Type 0) (p : Result A × World)
    → ((e : Error) → p.0 ≢ err e)
    → P p.1
    → Meets (λ _. P) R p
Meets-silent P R (ok a, w) never h = h
Meets-silent P R (err e, w) never h = ground (arith, never e)

pub Silent-Triple :
    {A : Type 0} {P R : World → Type 0} {m : Action World A}
    → Lasts P
    → Quiet m
    → Silent m
    → Triple P m (λ _. P) R
Silent-Triple {P} {R} {m} lasts q s = record {
  run = λ w h. Meets-silent P R (m w) (s.silent w) (lasts (m w).1 w (q.quiet w) h);
}

module _ (rt : Runtime) where
  pub IsPlaced-quiet : (f : FileObjectData) (bytes : List ℕ) → Lasts (IsPlaced rt f bytes)
  IsPlaced-quiet f bytes v w q h = record {
    sound = IsBacked-quiet rt v w q h.sound;
    there = rw q.files h.there;
    stored = rw (q.blobs f.id) h.stored;
    ahead = λ n le. h.ahead n (omega (arith, q.uuids));
  }

  pub uuid4-Triple : IsFresh rt → Triple (IsBacked rt) (uuid4 rt) (IsNew rt) (IsBacked rt)
  unfolding uuid4
  uuid4-Triple fresh = record { run = λ w h. made-IsNew rt w fresh h }

  pub put-Triple :
      (id : String) (bytes : List ℕ) (R : World → Type 0)
      → Triple (IsNew rt id) (Blobs.put (object id) bytes) (λ _. IsPending rt id bytes) R
  unfolding Blobs.put
  put-Triple id bytes R = record { run = λ w h. stored-IsPending rt id bytes w h }

  purge_row_cases :
      (f : FileObjectData) (w : World)
      → f.storage_path ≡ f.id
      → IsBacked rt w
      → IsBacked rt (purge_row f w).1
  unfolding purge_row Store.delete on_files
  purge_row_cases f w path h = elim (Bool-cases (contains f.id w.files.items)) [
    | inl there ↦ ground (arith, there, path, removed-IsBacked rt f.id w h)
    | inr absent ↦ ground (arith, absent, h)
  ]

  pub purge_row-Keeps :
      (f : FileObjectData) → f.storage_path ≡ f.id → Keeps (IsBacked rt) (purge_row f)
  purge_row-Keeps f path = record { keeps = λ w. purge_row_cases f w path }

  pub Holds-own_path : (f : FileObjectData) (w : World) → Holds rt f w → f.storage_path ≡ f.id
  Holds-own_path f w h = h.sound.own_path f.id f h.there

  pub purge_row-Triple :
      (f : FileObjectData) → Triple (Holds rt f) (purge_row f) (λ _. IsBacked rt) (IsBacked rt)
  purge_row-Triple f = record {
    run = λ w h. (Keeps-Triple (purge_row-Keeps f (Holds-own_path f w h))).run w h.sound;
  }

  insert_file_cases :
      (f : FileObjectData) (bytes : List ℕ) (w : World)
      → f.storage_path ≡ f.id
      → printed rt (some bytes) ≡ claimed (some f)
      → IsPending rt f.id bytes w
      → Meets (λ c v. IsPlaced rt f bytes v × (c ≡ f)) (IsNew rt f.id) (insert_file f w)
  unfolding insert_file on_files
  insert_file_cases f bytes w path says h = elim (create_atomic f none w.files) [
    | inl done ↦ ground (arith, done, created-IsPlaced rt f bytes w path says h done)
    | inr failed ↦ rw failed (IsPending-swept rt f.id bytes w h)
  ]

  pub insert_file-Triple :
      (f : FileObjectData) (bytes : List ℕ)
      → f.storage_path ≡ f.id
      → printed rt (some bytes) ≡ claimed (some f)
      → Triple
          (IsPending rt f.id bytes)
          (insert_file f)
          (λ c v. IsPlaced rt f bytes v × (c ≡ f))
          (IsNew rt f.id)
  insert_file-Triple f bytes path says = record { run = λ w. insert_file_cases f bytes w path says }

  -- A file that is written again with the same id, path, digest and size.
  pub update-Triple :
      (f g : FileObjectData)
      → g.id ≡ f.id
      → g.storage_path ≡ f.storage_path
      → claimed (some g) ≡ claimed (some f)
      → Triple (Holds rt f) (Repo.update g) (λ _. IsBacked rt) (IsBacked rt)
  unfolding Repo.update on_files
  update-Triple f g id path says = record {
    run = λ w h.
        Meets-both (IsBacked rt) (Repo.update g w) (updated-IsBacked rt f g w id path says h);
  }

module _ (rt : Runtime) (svc : Service) where
  has_too_many-Silent : (owner : String) → Silent (has_too_many rt svc owner)
  unfolding has_too_many Repo.count_by_owner
  has_too_many-Silent owner = record { silent = λ w e. ground arith }

  has_too_much-Silent : (over : Bool) (owner : String) → Silent (has_too_much rt svc over owner)
  unfolding has_too_much Repo.bytes_by_owner
  has_too_much-Silent over owner = record { silent = λ w e. ground arith }

  take_back-Triple :
      (over : Bool) (f : FileObjectData) (bytes : List ℕ)
      → Triple
          (IsPlaced rt f bytes)
          (take_back rt svc over f.id)
          (λ _. IsPlaced rt f bytes)
          (IsNew rt f.id)
  unfolding take_back on_files
  take_back-Triple false f bytes = Triple-pure tt (λ w h. h)
  take_back-Triple true f bytes = record { run = λ w h. removed-IsNew rt f.id w h.sound h.ahead }

  pub enforce_quota-Triple :
      (owner : String) (f : FileObjectData) (bytes : List ℕ)
      → Triple
          (IsPlaced rt f bytes)
          (enforce_quota rt svc owner f.id)
          (λ _. IsPlaced rt f bytes)
          (IsNew rt f.id)
  unfolding enforce_quota
  enforce_quota-Triple owner f bytes =
      Triple-bind
        (Silent-Triple (IsPlaced-quiet rt f bytes) (has_too_many-Quiet rt svc owner)
          (has_too_many-Silent owner))
        (λ many.
          Triple-bind
            (Silent-Triple (IsPlaced-quiet rt f bytes) (has_too_much-Quiet rt svc many owner)
              (has_too_much-Silent many owner))
            (λ over. take_back-Triple over f bytes))
