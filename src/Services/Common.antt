-- ===== src/Services/Common.antt =====
-- What the services share: src/rescs/services/utils.py, the settings of src/rescs/config.py that
-- they read, src/rescs/etag.py and `AuditService.log` of src/rescs/services/audit.py.
pub mod Laws
use Prim.Native.Nat.{min, max}
use Prim.Native.String
use rescs.Prelude.{
  String, ◌==◌, string_eq, nat_eq, ℕ, Bool, false, ◌||◌, Option, none, some, List, ltb,
  if◌then◌else◌, text_leb,
}
use rescs.Prelude.Int.{ℤ, clip}
use rescs.Errors.{Error, Result, ok, err, code, payload_too_large, forbidden}
use rescs.Action.{Action, pure, handle, ◌>>=◌}
use rescs.Dict.{set, contains}
use rescs.Domain.{Json, AuditData}
use rescs.Memory.Store.{sort}
use rescs.World.{Runtime, World, utcnow, uuid4}

abbrev pub max_limit : ℕ
max_limit = 500

-- `clamp_pagination`
unfoldable pub clamp_pagination : ℤ → ℤ → ℕ × ℕ
clamp_pagination limit offset = (max 1 (min (clip limit) max_limit), clip offset)

-- The limits of `Settings`; 0 means that there is none. Their validators refuse negative values.
pub record Settings : Type 0 where
  pub api_key_owner : String
  pub max_records_per_owner : ℕ
  pub max_files_per_owner : ℕ
  pub max_bytes_per_owner : ℕ
  pub max_file_size : ℕ
  pub max_metadata_bytes : ℕ
  pub max_bulk_batch : ℕ
  pub max_ttl_seconds : ℕ

-- What a service was built with: its settings, if any, and whether it has an audit service.
pub record Service : Type 0 where
  pub settings : Option Settings
  pub audits : Bool

-- `content_etag`: the tags are sorted before they are hashed.
unfoldable pub content_etag : Runtime → Json → Json → List String → String
content_etag rt value metadata tags =
    rt.sha256_text (rt.canonical value metadata (sort text_leb tags))

-- `file_etag`
unfoldable pub file_etag : Runtime → String → ℕ → String
file_etag rt sha256 size = rt.sha256_text (String.◌++◌ sha256 (String.◌++◌ ":" (rt.decimal size)))

-- A limit of 0 is no limit.
abbrev pub exceeds : ℕ → ℕ → Bool
exceeds size limit = if limit == 0 then false else ltb limit size

-- `_check_metadata_size`
unfoldable pub check_metadata_size : Runtime → Option Settings → Json → Result (Unit {0})
check_metadata_size rt none metadata = ok tt
check_metadata_size rt (some s) metadata =
    if exceeds (rt.dumped_size metadata) s.max_metadata_bytes then err payload_too_large else ok tt

-- The owner that the settings lock every request to, or the empty text.
abbrev pub locked_owner : Option Settings → String
locked_owner none = ""
locked_owner (some s) = s.api_key_owner

-- `_check_bulk_owner` and `_check_owner_locked`
unfoldable pub check_owner : Option Settings → String → Result (Unit {0})
check_owner settings owner =
    if locked_owner settings == "" || owner == locked_owner settings then ok tt else err forbidden

-- `InMemoryAuditRepository.append`
unfoldable pub append : AuditData → Action World (Unit {0})
append event w =
    if contains event.id w.events
    then (err Error.conflict, w)
    else (ok tt, record w { events = set event.id event w.events })

-- What a caller of `AuditService.log` says of an operation.
pub record LogEntry : Type 0 where
  pub operation : String
  pub resource_type : String
  pub resource_id : Option String
  pub owner : String
  pub outcome : String
  pub error_code : Option String

abbrev pub event_of : Runtime → LogEntry → String → ℕ → AuditData
event_of rt e id now = record {
  id = id;
  timestamp = now;
  operation = e.operation;
  resource_type = e.resource_type;
  resource_id = e.resource_id;
  owner = e.owner;
  request_id = rt.request_id;
  outcome = e.outcome;
  error_code = e.error_code;
}

-- `AuditService.log`: an event that cannot be appended is dropped, with a warning.
unfoldable pub log : Runtime → LogEntry → Action World (Unit {0})
unfolding append utcnow uuid4
log rt e = do
  id ← uuid4 rt
  now ← utcnow rt
  λ w. handle (append (event_of rt e id now) w) pure (λ _. pure tt)

-- The outcome of an error: `denied` for the two that refuse a caller.
abbrev pub outcome_of : Error → String
outcome_of e = if code e == "UNAUTHORIZED" || code e == "FORBIDDEN" then "denied" else "error"

-- The body of `_audited`, once an audit service is known to be there.
unfoldable pub audited : Runtime → Service → LogEntry → Action World (Unit {0})
unfolding log
audited rt svc e w = if svc.audits then log rt e w else (ok tt, w)

-- `try: m except Exception as exc: h(exc); raise`
abbrev pub on_error :
    {A : Type 0} → (Error → Action World (Unit {0})) → Action World A → Action World A
on_error h m w = handle (m w) pure (λ e w'. (err e, (h e w').1))

-- `try: m except Exception: pass`
abbrev pub best_effort : {A : Type 0} → Action World A → Action World (Unit {0})
best_effort m w = (ok tt, (m w).1)
