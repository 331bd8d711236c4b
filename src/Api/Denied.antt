-- ===== src/Api/Denied.antt =====
-- What it is for a route to turn a caller away.
use rescs.Prelude.{◌≡◌, refl, Bool, true, false, arith}
use rescs.Errors.{Error, Result, ok, err, unauthorized, forbidden, not_found}
use rescs.Action.{Action, handle, raise, ◌>>=◌}
use rescs.World.{World}

-- The errors with the statuses 401, 403 and 404 that say no more than that.
abbrev pub is_refusal : Error → Bool
is_refusal unauthorized = true
is_refusal forbidden = true
is_refusal not_found = true
is_refusal _ = false

-- The route raised one of them, and has changed no repository and no blob.
pub record IsDenied {A : Type 0} (p : Result A × World) (w : World) : Type 0 where
  pub error : Error
  pub raised : p.0 ≡ err error
  pub refusal : is_refusal error ≡ true
  pub records : p.1.records ≡ w.records
  pub files : p.1.files ≡ w.files
  pub events : p.1.events ≡ w.events
  pub sessions : p.1.sessions ≡ w.sessions
  pub blobs : p.1.blobs ≡ w.blobs

handle-IsDenied :
    {A B : Type 0} (p : Result A × World) (w : World) (k : A → Action World B)
    → IsDenied p w
    → IsDenied (handle p k raise) w
handle-IsDenied (ok a, v) w k h = ground (arith, h.raised)
handle-IsDenied (err e, v) w k h = record {
  error = e;
  raised = refl;
  refusal = ground (arith, h.raised, h.refusal);
  records = h.records;
  files = h.files;
  events = h.events;
  sessions = h.sessions;
  blobs = h.blobs;
}

-- What follows is not run.
pub bind-IsDenied :
    {A B : Type 0} (m : Action World A) (k : A → Action World B) (w : World)
    → IsDenied (m w) w
    → IsDenied ((m >>= k) w) w
bind-IsDenied m k w h = handle-IsDenied (m w) w k h

-- A refusal that only the clock was read for.
pub ticked-IsDenied :
    {A : Type 0} (p : Result A × World) (w v : World) (e : Error)
    → p ≡ (err e, v)
    → is_refusal e ≡ true
    → v.records ≡ w.records
    → v.files ≡ w.files
    → v.events ≡ w.events
    → v.sessions ≡ w.sessions
    → v.blobs ≡ w.blobs
    → IsDenied p w
ticked-IsDenied p w v e same refusal a b c d f = rw same record {
  error = e;
  raised = refl;
  refusal = refusal;
  records = a;
  files = b;
  events = c;
  sessions = d;
  blobs = f;
}
