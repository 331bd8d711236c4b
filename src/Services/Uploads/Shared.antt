-- ===== src/Services/Uploads/Shared.antt =====
-- What the operations of `UploadService` share, and `create` and `get`.
use rescs.Prelude.{
  String, string_eq, nat_eq, ℕ, ◌+◌, ◌*◌, ◌||◌, Option, none, some, List, [], leb, ltb,
  if◌then◌else◌, is_empty,
}
use rescs.Prelude.Int.{ℤ, clip, lt_ℕ}
use rescs.Errors.{Error, code, not_found, invalid_request, payload_too_large}
use rescs.Action.{Action, pure, raise, lift, handle, raise_if, ◌>>=◌, ◌>>◌}
use rescs.Dict
use rescs.Domain.{Json, object, end_fields, UploadSessionData, active, expired}
use rescs.Domain.Tags.{normalize_tags, validate_tags}
use rescs.Memory.Sessions as Sessions
use rescs.World.{Runtime, World, utcnow, uuid4}
use rescs.Services.Common.{Settings, Service, LogEntry, audited, outcome_of, on_error, exceeds}

abbrev pub min_chunk : ℕ
min_chunk = 64 * 1024

abbrev pub max_chunk : ℕ
max_chunk = 64 * 1024 * 1024

-- `timedelta(seconds=MAX_SESSION_SECONDS)`, in microseconds.
abbrev pub session_lifetime : ℕ
session_lifetime = 24 * 3600 * 1000000

abbrev pub upload_entry : String → Option String → String → String → Option String → LogEntry
upload_entry operation id owner outcome error_code = record {
  operation = operation;
  resource_type = "upload";
  resource_id = id;
  owner = owner;
  outcome = outcome;
  error_code = error_code;
}

-- `except NotFoundError: pass`
abbrev pub pass_not_found : Error → Action World (Unit {0})
pass_not_found not_found = pure tt
pass_not_found e = raise e

abbrev pub unless_missing : {A : Type 0} → Action World A → Action World (Unit {0})
unless_missing m w = handle (m w) (λ _. pure tt) pass_not_found

abbrev pub max_file : Option Settings → ℕ
max_file none = 0
max_file (some s) = s.max_file_size

-- The keyword arguments of `create`.
pub record UploadCreate : Type 0 where
  pub owner : String
  pub filename : String
  pub content_type : String
  pub total_size : ℤ
  pub chunk_size : ℤ
  pub checksum : Option String
  pub metadata : Option Json
  pub tags : Option (List String)

abbrev pub or_text : String → String → String
or_text s other = if is_empty s then other else s

abbrev pub given_tags : Option (List String) → List String
given_tags none = []
given_tags (some tags) = tags

abbrev pub given_metadata : Option Json → Json
given_metadata none = object end_fields
given_metadata (some metadata) = metadata

-- The owner of a session for the log, or the actor.
abbrev pub owner_or : String → String → World → String
owner_or id actor w = elim (Dict.get id w.sessions) [ none ↦ actor | some s ↦ s.owner ]

module _ (rt : Runtime) (svc : Service) where
  abbrev pub upload_ok : String → String → String → Action World (Unit {0})
  upload_ok operation id owner = audited rt svc (upload_entry operation (some id) owner "ok" none)

  -- The handler that looks the owner up first.
  abbrev pub upload_error : String → String → String → Error → Action World (Unit {0})
  upload_error operation id actor e w =
      audited rt svc
        (upload_entry operation (some id) (owner_or id actor w) (outcome_of e) (some (code e))) w

  unfoldable pub create_body : UploadCreate → Action World UploadSessionData
  unfolding utcnow uuid4 Sessions.create
  create_body p = do
    raise_if (lt_ℕ p.total_size 0) invalid_request
    raise_if (lt_ℕ p.chunk_size min_chunk || ltb max_chunk (clip p.chunk_size)) invalid_request
    raise_if (exceeds (clip p.total_size) (max_file svc.settings)) payload_too_large
    lift (validate_tags (normalize_tags (given_tags p.tags)))
    now ← utcnow rt
    id ← uuid4 rt
    created ← Sessions.create (record {
      id = id;
      owner = p.owner;
      filename = or_text p.filename "unnamed";
      content_type = or_text p.content_type "application/octet-stream";
      total_size = clip p.total_size;
      received_bytes = 0;
      chunk_size = clip p.chunk_size;
      status = active;
      checksum = p.checksum;
      created_at = now;
      updated_at = now;
      expires_at = now + session_lifetime;
      metadata = given_metadata p.metadata;
      tags = normalize_tags (given_tags p.tags);
    })
    upload_ok "upload.create" created.id p.owner
    pure created

  unfoldable pub create : UploadCreate → Action World UploadSessionData
  unfolding create_body
  create p =
      on_error
        (λ e.
          audited rt svc (upload_entry "upload.create" none p.owner (outcome_of e) (some (code e))))
        (create_body p)

  -- `get` on a session that is active and past its time at the first reading of the clock.
  unfoldable pub expire : UploadSessionData → Action World UploadSessionData
  unfolding utcnow Sessions.update
  expire session = do
    again ← utcnow rt
    if leb session.expires_at again
        then unless_missing (Sessions.update (record session { status = expired }))
        else pure tt
    raise not_found

  unfoldable pub get_active : UploadSessionData → Action World UploadSessionData
  unfolding utcnow expire
  get_active session = do
    now ← utcnow rt
    if leb session.expires_at now then expire session else pure session

  unfoldable pub get : String → Action World UploadSessionData
  unfolding get_active Sessions.get
  get id = do
    session ← Sessions.get id
    if Sessions.status_beq session.status active then get_active session else raise not_found
