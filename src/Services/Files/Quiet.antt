-- ===== src/Services/Files/Quiet.antt =====
-- Actions that leave the files and their blobs alone.
use rescs.Prelude.{
  String, ◌==◌, string_eq, nat_eq, ℕ, ◌≤◌, ◌≡◌, refl, ◌∙◌, Bool, true, false, not, ◌||◌, Option,
  none, some, if◌then◌else◌, leb, ltb, arith, ◌+◌,
}
use rescs.Prelude.Int.{ℤ}
use rescs.Errors.{
  Error, Result, ok, err, invalid_request, payload_too_large, quota_exceeded, precondition_failed,
}
use rescs.Action.{Action, pure, raise, lift, handle, raise_if, ◌>>=◌}
use rescs.Domain.{FileObjectData, Json, Datetime}
use rescs.Memory.Files as Repo
use rescs.Dict.{get}
use rescs.World.{object, blob_key_eq, Runtime, World, utcnow}
use rescs.Services.Common.{on_error, Service, LogEntry, audited, exceeds, check_metadata_size}
use rescs.Services.Expiry.{resolve_expiry, resolve_at}
use rescs.Services.Files.Shared.{
  check_etag, check_governance, has_too_many, has_too_much, count_limit, byte_limit, size_limit,
}
use rescs.Services.Files.Create.{expired_now}
use rescs.Services.Files.Lifecycle.{check_stored}

-- `v` has the files of `w` and the blobs of its objects, whatever their chunks, and has made no fewer ids.
pub record IsQuiet (v w : World) : Type 0 where
  pub files : v.files ≡ w.files
  pub blobs : (id : String) → get (object id) v.blobs ≡ get (object id) w.blobs
  pub uuids : w.uuids ≤ v.uuids

pub record Quiet {A : Type 0} (m : Action World A) : Type 0 where
  pub quiet : (w : World) → IsQuiet (m w).1 w

pub IsQuiet-refl : (w : World) → IsQuiet w w
IsQuiet-refl w = record { files = refl; blobs = λ id. refl; uuids = omega arith }

pub IsQuiet-trans : (u v w : World) → IsQuiet u v → IsQuiet v w → IsQuiet u w
IsQuiet-trans u v w h k = record {
  files = h.files ∙ k.files;
  blobs = λ id. h.blobs id ∙ k.blobs id;
  uuids = omega (arith, h.uuids, k.uuids);
}

Quiet-handle :
    {A B : Type 0} (w : World) (p : Result A × World) (k : A → Action World B)
    → IsQuiet p.1 w
    → ((a : A) → Quiet (k a))
    → IsQuiet (handle p k raise).1 w
Quiet-handle w (ok a, v) k first rest = IsQuiet-trans (k a v).1 v w ((rest a).quiet v) first
Quiet-handle w (err e, v) k first rest = first

pub Quiet-bind :
    {A B : Type 0} {m : Action World A} {k : A → Action World B}
    → Quiet m
    → ((a : A) → Quiet (k a))
    → Quiet (m >>= k)
Quiet-bind {m} {k} first rest = record { quiet = λ w. Quiet-handle w (m w) k (first.quiet w) rest }

pub Quiet-pure : {A : Type 0} (a : A) → Quiet (pure {S = World} a)
Quiet-pure a = record { quiet = IsQuiet-refl }

try-Quiet :
    {A B : Type 0} (w : World) (p : Result A × World) (k : A → Action World B)
    (h : Error → Action World B)
    → IsQuiet p.1 w
    → ((a : A) → Quiet (k a))
    → ((e : Error) → Quiet (h e))
    → IsQuiet (handle p k h).1 w
try-Quiet w (ok a, v) k h first on off = IsQuiet-trans (k a v).1 v w ((on a).quiet v) first
try-Quiet w (err e, v) k h first on off = IsQuiet-trans (h e v).1 v w ((off e).quiet v) first

pub Quiet-try :
    {A B : Type 0} {m : Action World A} {k : A → Action World B} {h : Error → Action World B}
    → Quiet m
    → ((a : A) → Quiet (k a))
    → ((e : Error) → Quiet (h e))
    → Quiet (λ w. handle (m w) k h)
Quiet-try {m} {k} {h} first on off = record {
  quiet = λ w. try-Quiet w (m w) k h (first.quiet w) on off;
}

pub Quiet-on_error :
    {A : Type 0} {m : Action World A} {h : Error → Action World (Unit {0})}
    → ((e : Error) → Quiet (h e))
    → Quiet m
    → Quiet (on_error h m)
Quiet-on_error handler body =
    Quiet-try body (λ a. Quiet-pure a) (λ e. record { quiet = (handler e).quiet })

pub Quiet-if :
    {A : Type 0} (b : Bool) {m n : Action World A} → Quiet m → Quiet n → Quiet (if b then m else n)
Quiet-if true first second = first
Quiet-if false first second = second

pub Quiet-lift : {A : Type 0} (r : Result A) → Quiet (lift {S = World} r)
Quiet-lift r = record { quiet = IsQuiet-refl }

pub Quiet-raise : {A : Type 0} (e : Error) → Quiet (raise {S = World} {A = A} e)
Quiet-raise e = record { quiet = IsQuiet-refl }

pub Quiet-raise_if : (b : Bool) (e : Error) → Quiet (raise_if {S = World} b e)
Quiet-raise_if true e = record { quiet = IsQuiet-refl }
Quiet-raise_if false e = record { quiet = IsQuiet-refl }

pub check_etag-Quiet :
    (f : FileObjectData) (expected : Option String) → Quiet (check_etag f expected)
check_etag-Quiet f none = Quiet-pure tt
check_etag-Quiet f (some etag) = Quiet-raise_if (not (f.etag == etag)) precondition_failed

pub check_stored-Quiet : (f : FileObjectData) → Quiet (check_stored f)
unfolding check_stored
check_stored-Quiet f = record { quiet = λ w. ground arith }

module _ (rt : Runtime) where
  pub utcnow-Quiet : Quiet (utcnow rt)
  unfolding utcnow
  utcnow-Quiet = record { quiet = λ w. ground arith }

  pub get-Quiet : (id : String) → Quiet (Repo.get rt id)
  unfolding Repo.get
  get-Quiet id = record { quiet = λ w. ground arith }

  pub count-Quiet : (owner : String) → Quiet (Repo.count_by_owner rt owner false)
  unfolding Repo.count_by_owner
  count-Quiet owner = record { quiet = λ w. ground arith }

  pub bytes-Quiet : (owner : String) → Quiet (Repo.bytes_by_owner rt owner false)
  unfolding Repo.bytes_by_owner
  bytes-Quiet owner = record { quiet = λ w. ground arith }

  pub expired_now-Quiet : (moment : Option ℕ) → Quiet (expired_now rt moment)
  unfolding expired_now
  expired_now-Quiet none = Quiet-pure false
  expired_now-Quiet (some moment) = Quiet-bind utcnow-Quiet (λ now. Quiet-pure (leb moment now))

module _ (rt : Runtime) (svc : Service) where
  pub audited-Quiet : (e : LogEntry) → Quiet (audited rt svc e)
  unfolding audited
  audited-Quiet e = record { quiet = λ w. ground arith }

  pub resolve_expiry-Quiet :
      (t : Option Datetime) (ttl : Option ℤ) → Quiet (resolve_expiry rt t ttl svc.settings)
  unfolding resolve_expiry
  resolve_expiry-Quiet (some t) (some ttl) = Quiet-raise invalid_request
  resolve_expiry-Quiet (some t) none =
      Quiet-bind (utcnow-Quiet rt) (λ now. Quiet-lift (resolve_at now (some t) none svc.settings))
  resolve_expiry-Quiet none ttl =
      Quiet-bind (utcnow-Quiet rt) (λ now. Quiet-lift (resolve_at now none ttl svc.settings))

  pub check_governance-Quiet :
      (owner : String) (size : ℕ) (metadata : Json)
      → Quiet (check_governance rt svc owner size metadata)
  unfolding check_governance
  check_governance-Quiet owner size metadata =
      Quiet-bind (Quiet-raise_if (exceeds size (size_limit svc.settings)) payload_too_large) (λ _.
        Quiet-bind (Quiet-lift (check_metadata_size rt svc.settings metadata)) (λ _.
          Quiet-bind
            (Quiet-if (count_limit svc.settings == 0) (Quiet-pure tt) (
              Quiet-bind (count-Quiet rt owner)
                (λ count. Quiet-raise_if (leb (count_limit svc.settings) count) quota_exceeded)))
            (λ _. Quiet-if (byte_limit svc.settings == 0) (Quiet-pure tt) (
              Quiet-bind (bytes-Quiet rt owner) (λ used.
                Quiet-raise_if (ltb (byte_limit svc.settings) (used + size)) quota_exceeded)))))

  pub has_too_many-Quiet : (owner : String) → Quiet (has_too_many rt svc owner)
  unfolding has_too_many
  has_too_many-Quiet owner = Quiet-if (count_limit svc.settings == 0) (Quiet-pure false) (
      Quiet-bind (count-Quiet rt owner)
        (λ count. Quiet-pure (ltb (count_limit svc.settings) count)))

  pub has_too_much-Quiet : (over : Bool) (owner : String) → Quiet (has_too_much rt svc over owner)
  unfolding has_too_much
  has_too_much-Quiet over owner =
      Quiet-if (over || byte_limit svc.settings == 0) (Quiet-pure over) (
        Quiet-bind (bytes-Quiet rt owner) (λ used. Quiet-pure (ltb (byte_limit svc.settings) used)))
